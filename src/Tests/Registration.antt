-- ===== src/Tests/Registration.antt =====
-- A registration that succeeds for 600 seconds, and then has a NOTIFY that extends it.
use rust_rcs_client.Common.{false, [], ◌∷◌, none, some, ◌≡◌, refl, codes}
use rust_rcs_client.Connectivity.Registration.{
  registered, released, Response, start_register, release, on_final_response, schedule_refresh,
  refresh,
}
use rust_rcs_client.Connectivity.Registration.Final.{Step-released}
use rust_rcs_client.Connectivity.Registration.Refresh.{
  Client, initial, after, start, response, expiration_refreshed, Reachable, begin, step,
  refresh-never,
}

abbrev success : Response
success = record {
  status_code = 200;
  associated_uris = codes "tel:1" ∷ codes "sip:u@h" ∷ [];
  contact_expires = some 600;
  sip_expires = none;
  answered = false;
}

abbrev started : Client
started = after initial (start_register initial.registration)

abbrev accepted : Client
accepted = after started (on_final_response (codes "sip:t@h") 1000 0 success started.registration)

abbrev extended : Client
extended = after accepted (accepted.registration, schedule_refresh 1700 accepted.registration.state)

abbrev run : Reachable (codes "sip:t@h") extended
unfolding start_register on_final_response schedule_refresh
run =
    step accepted extended
      (step started accepted (step initial started begin (start initial))
        (response 1000 0 success started refl))
      (expiration_refreshed 1700 accepted refl)

accepted_test : accepted.registration.state ≡ registered (codes "sip:u@h") 1600
unfolding start_register on_final_response schedule_refresh
accepted_test = refl

refresh-never_example : refresh 1700 extended.registration ≡ (extended.registration, [])
unfolding start_register on_final_response schedule_refresh
refresh-never_example = refresh-never (codes "sip:t@h") extended 1700 run refl

-- the client after a transport error
abbrev ended : Client
ended = after started (release started.registration)

Step-released_example :
    (after ended (start_register ended.registration)).registration.state ≡ released
unfolding start_register release
Step-released_example =
    Step-released (codes "sip:t@h") ended (after ended (start_register ended.registration))
      (start ended) refl
