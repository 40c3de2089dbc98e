-- ===== src/Messaging/Cpm/LargeMode/Once.antt =====
-- The deliveries of a receiver in large mode and its writer, whatever the order of the calls.
use rust_rcs_client.Common.{
  append-nil, ◌≤◌, Bool, true, false, List, [], ◌∷◌, ◌++◌, Option, none, some, ◌≡◌, refl, arith,
  Bytes, length, ◌⊎◌, inl, inr,
}
use rust_rcs_client.Messaging.Cpm.LargeMode.{
  Parsers, Delivery, Writer, Receiver, Content, write, on_message, complete, complete_body,
  complete_message, deliver, deliver_decoded,
}

module _ (Body Message Info : Type 0) (parsers : Parsers Body Message Info) where
  -- what the MSRP channel calls, in any order; a call of a writer that is not there is none
  pub data Op : Type 0 where
    message_op : Op
    write_op : Bytes → Op
    complete_op : Op

  abbrev newer :
      Option (Writer Body Message Info)
      → Option (Writer Body Message Info)
      → Option (Writer Body Message Info)
  newer none old = old
  newer (some w) old = some w

  abbrev written : Bytes → Option (Writer Body Message Info) → Option (Writer Body Message Info)
  written chunk none = none
  written chunk (some w) = some (write Body Message Info chunk w).1

  unfoldable pub run :
      List Op
      → Receiver Body Message Info
      → Option (Writer Body Message Info)
      → List (Delivery Body Message Info)
  unfolding on_message write complete
  run [] r w = []
  run (message_op ∷ ops) r w =
      let (r', w') = on_message Body Message Info r in run ops r' (newer w' w)
  run (write_op chunk ∷ ops) r w = run ops r (written chunk w)
  run (complete_op ∷ ops) r none = run ops r none
  run (complete_op ∷ ops) r (some w) =
      let (w', completion) = complete Body Message Info parsers w in
      completion.0 ++ run ops r (some w')

  -- the data of the first transfer: what is written between the first message and its completion
  abbrev pub data_until : Bytes → List Op → Option Bytes
  data_until d [] = none
  data_until d (message_op ∷ ops) = data_until d ops
  data_until d (write_op chunk ∷ ops) = data_until (d ++ chunk) ops
  data_until d (complete_op ∷ ops) = some d

  abbrev pub first_transfer : List Op → Option Bytes
  first_transfer [] = none
  first_transfer (message_op ∷ ops) = data_until [] ops
  first_transfer (write_op chunk ∷ ops) = first_transfer ops
  first_transfer (complete_op ∷ ops) = first_transfer ops

  abbrev pub deliveries_of : Bytes → Option Body → Option Bytes → List (Delivery Body Message Info)
  deliveries_of contact sip none = []
  deliveries_of contact sip (some d) =
      (complete_body Body Message Info parsers contact sip (parsers.construct_message d)).0

  abbrev receiver : Bytes → Option Body → Bool → Receiver Body Message Info
  receiver contact sip b = record { contact_uri = contact; sip_cpim_body = sip; listening = b }

  abbrev writer : Bytes → Bytes → Option Body → Bool → Writer Body Message Info
  writer d contact sip b = record {
    data_written = d;
    contact_uri = contact;
    sip_cpim_body = sip;
    listening = b;
  }

  run-deaf :
      (ops : List Op) (d contact : Bytes) (sip : Option Body)
      → run ops (receiver contact sip false) (some (writer d contact sip false)) ≡ []
  unfolding run on_message write complete
  run-deaf [] d contact sip = refl
  run-deaf (message_op ∷ ops) d contact sip = run-deaf ops d contact sip
  run-deaf (write_op chunk ∷ ops) d contact sip = run-deaf ops (d ++ chunk) contact sip
  run-deaf (complete_op ∷ ops) d contact sip = run-deaf ops d contact sip

  run-writing :
      (ops : List Op) (d contact : Bytes) (sip : Option Body)
      → run ops (receiver contact sip false) (some (writer d contact sip true))
        ≡ deliveries_of contact sip (data_until d ops)
  unfolding run on_message write complete
  run-writing [] d contact sip = refl
  run-writing (message_op ∷ ops) d contact sip = run-writing ops d contact sip
  run-writing (write_op chunk ∷ ops) d contact sip = run-writing ops (d ++ chunk) contact sip
  run-writing (complete_op ∷ ops) d contact sip = rw (run-deaf ops d contact sip) (append-nil _)

  run-fresh :
      (ops : List Op) (contact : Bytes) (sip : Option Body)
      → run ops (receiver contact sip true) none ≡ deliveries_of contact sip (first_transfer ops)
  unfolding run on_message write complete
  run-fresh [] contact sip = refl
  run-fresh (message_op ∷ ops) contact sip = run-writing ops [] contact sip
  run-fresh (write_op chunk ∷ ops) contact sip = run-fresh ops contact sip
  run-fresh (complete_op ∷ ops) contact sip = run-fresh ops contact sip

  deliver_decoded-once :
      (contact : Bytes) (info : Info) (c : Content) (o : Option Bytes)
      → length (deliver_decoded Body Message Info parsers contact info c o).0 ≤ 1
  unfolding deliver_decoded
  deliver_decoded-once contact info c none = omega arith
  deliver_decoded-once contact info c (some bytes) = omega arith

  deliver-once :
      (contact : Bytes) (i : Bytes ⊎ Info) (c : Option Content)
      → length (deliver Body Message Info parsers contact i c).0 ≤ 1
  unfolding deliver
  deliver-once contact (inl e) c = omega arith
  deliver-once contact (inr info) none = omega arith
  deliver-once contact (inr info) (some c) = deliver_decoded-once contact info c _

  complete_message-once :
      (contact : Bytes) (sip : Option Body) (m : Bytes ⊎ Message)
      → length (complete_message Body Message Info parsers contact sip m).0 ≤ 1
  unfolding complete_message
  complete_message-once contact sip (inl e) = omega arith
  complete_message-once contact sip (inr m) = deliver-once contact _ _

  deliveries_of-once :
      (contact : Bytes) (sip : Option Body) (b : Bytes ⊎ Body)
      → length (complete_body Body Message Info parsers contact sip b).0 ≤ 1
  unfolding complete_body
  deliveries_of-once contact sip (inl e) = omega arith
  deliveries_of-once contact sip (inr body) = complete_message-once contact sip _

  transfer-once :
      (contact : Bytes) (sip : Option Body) (o : Option Bytes)
      → length (deliveries_of contact sip o) ≤ 1
  transfer-once contact sip none = omega arith
  transfer-once contact sip (some d) = deliveries_of-once contact sip _

  -- However the channel's calls of a new receiver and its writer follow each other, the listener gets
  -- exactly what the completion of the first transfer makes of the chunks written in it, put together
  -- in their order, and that is one message at most.
  pub run-first_transfer :
      (ops : List Op) (contact : Bytes) (sip : Option Body)
      → (run ops (record { contact_uri = contact; sip_cpim_body = sip; listening = true }) none
          ≡ deliveries_of contact sip (first_transfer ops))
        × (length (
              run ops
                (record { contact_uri = contact; sip_cpim_body = sip; listening = true })
                none)
            ≤ 1)
  run-first_transfer ops contact sip = (
    run-fresh ops contact sip,
    rw (run-fresh ops contact sip) (transfer-once contact sip (first_transfer ops)),
  )
