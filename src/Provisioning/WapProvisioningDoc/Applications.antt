-- ===== src/Provisioning/WapProvisioningDoc/Applications.antt =====
-- Looking up, updating and filtering the applications of a document.
use rust_rcs_client.Common.{
  ◌≢◌, Bool, true, false, List, [], ◌∷◌, some, ◌≡◌, refl, ap, inl, inr, arith, Bytes, codes,
  bytes_eq_iff, if◌then◌else◌, retain, Bool-cases, Option-cases,
}
use rust_rcs_client.Provisioning.Characteristic.{
  Characteristic, characteristic, characteristic_type, get_parameter,
}
use rust_rcs_client.Provisioning.Characteristic.RoundTrip.{of_list-to_list}
use rust_rcs_client.Provisioning.WapProvisioningDoc.{
  WapProvisioningDoc, is_application, applications, has_app_id, find_application,
  get_application_characteristic, replaced, update_root, update_application,
  remove_non_application_characteristics,
}

-- the characteristic as it is found again
has_app_id-type :
    (app_id : Bytes) (c : Characteristic)
    → has_app_id app_id c ≡ true
    → characteristic_type c ≡ codes "APPLICATION"
unfolding has_app_id
has_app_id-type app_id c h =
    (bytes_eq_iff (characteristic_type c) (codes "APPLICATION")).0 (ground arith)

replaced_same :
    (app_id : Bytes) (child application : Characteristic)
    → has_app_id app_id child ≡ true
    → has_app_id app_id application ≡ true
    → replaced child application ≡ application
unfolding replaced
replaced_same app_id child (characteristic t ps cs) h k = rw (
  has_app_id-type app_id child h,
  has_app_id-type app_id (characteristic t ps cs) k,
  of_list-to_list cs,
)

has_app_id-not_application :
    (app_id : Bytes) (c : Characteristic) → is_application c ≡ false → has_app_id app_id c ≡ false
unfolding has_app_id
has_app_id-not_application app_id c h = rw h

has_app_id-get_parameter :
    (app_id : Bytes) (c : Characteristic)
    → has_app_id app_id c ≡ true
    → get_parameter c (codes "AppID") ≡ some app_id
unfolding has_app_id
has_app_id-get_parameter app_id c h = elim (Option-cases (get_parameter c (codes "AppID"))) [
  | inl missing ↦ ground arith
  | inr (id, found) ↦ ground (arith, bytes_eq_iff id app_id)
]

-- An application has one `AppID`.
has_app_id_unique :
    (a b : Bytes) (c : Characteristic) → has_app_id a c ≡ true → b ≢ a → has_app_id b c ≡ false
has_app_id_unique a b c h ne = elim (Bool-cases (has_app_id b c)) [
  | inl both ↦ absurd (ne (cc (has_app_id-get_parameter b c both, has_app_id-get_parameter a c h)))
  | inr other ↦ other
]

find-update :
    (app_id : Bytes) (application : Characteristic) (root : List Characteristic)
    → has_app_id app_id application ≡ true
    → find_application app_id (update_root app_id application root) ≡ some application
unfolding find_application update_root
find-update app_id application [] h = rw h
find-update app_id application (c ∷ cs) h = elim (Bool-cases (has_app_id app_id c)) [
  | inl found ↦ rw (found, replaced_same app_id c application found h, h)
  | inr other ↦ rw (other, other) (find-update app_id application cs h)
]

find-update_other :
    (app_id other_id : Bytes) (application : Characteristic) (root : List Characteristic)
    → has_app_id app_id application ≡ true
    → other_id ≢ app_id
    → find_application other_id (update_root app_id application root)
      ≡ find_application other_id root
unfolding find_application update_root
find-update_other app_id other_id application [] h ne =
    rw (has_app_id_unique app_id other_id application h ne)
find-update_other app_id other_id application (c ∷ cs) h ne =
    elim (Bool-cases (has_app_id app_id c)) [
      | inl found ↦ rw (
        found,
        replaced_same app_id c application found h,
        has_app_id_unique app_id other_id application h ne,
        has_app_id_unique app_id other_id c found ne,
      )
      | inr missing ↦ rw missing (
          ap (λ rest. if has_app_id other_id c then some c else rest)
            (find-update_other app_id other_id application cs h ne))
    ]

-- After an update with an application that has the id it is filed under, that id finds this
-- application, and every other id finds what it found before.
pub get_application-update_application :
    (doc : WapProvisioningDoc) (app_id : Bytes) (application : Characteristic)
    → has_app_id app_id application ≡ true
    → (get_application_characteristic (update_application doc app_id application) app_id
        ≡ some application)
      × ((other_id : Bytes)
          → other_id ≢ app_id
          → get_application_characteristic (update_application doc app_id application) other_id
            ≡ get_application_characteristic doc other_id)
unfolding get_application_characteristic update_application
get_application-update_application doc app_id application h = (
  find-update app_id application doc.root h,
  λ other_id ne. find-update_other app_id other_id application doc.root h ne,
)

retain_idem :
    (p : Characteristic → Bool) (root : List Characteristic)
    → retain p (retain p root) ≡ retain p root
unfolding retain
retain_idem p [] = refl
retain_idem p (c ∷ cs) = elim (Bool-cases (p c)) [
  | inl keep ↦ rw (keep, keep) (ap (◌∷◌ c) (retain_idem p cs))
  | inr drop ↦ rw drop (retain_idem p cs)
]

find-retain :
    (app_id : Bytes) (root : List Characteristic)
    → find_application app_id (retain is_application root) ≡ find_application app_id root
unfolding find_application retain
find-retain app_id [] = refl
find-retain app_id (c ∷ cs) = elim (Bool-cases (is_application c)) [
  | inl keep ↦
      rw keep (ap (λ rest. if has_app_id app_id c then some c else rest) (find-retain app_id cs))
  | inr drop ↦ rw (drop, has_app_id-not_application app_id c drop) (find-retain app_id cs)
]

-- Dropping all but the applications leaves exactly the list that `applications` iterates over, and
-- changes neither this list nor what any application id finds.
pub applications-remove_non_application :
    (doc : WapProvisioningDoc)
    → (applications (remove_non_application_characteristics doc) ≡ applications doc)
      × ((remove_non_application_characteristics doc).root ≡ applications doc)
      × ((app_id : Bytes)
          → get_application_characteristic (remove_non_application_characteristics doc) app_id
            ≡ get_application_characteristic doc app_id)
unfolding applications remove_non_application_characteristics get_application_characteristic
applications-remove_non_application doc =
    (retain_idem is_application doc.root, refl, λ app_id. find-retain app_id doc.root)
