-- ===== src/Invite/Tests.antt =====
-- Runs of the invitations of src/carrier/ela_carrier.c over the network of Invite/Simple.
use elastos_net_carrier_nati.Base.{
  ℕ, ◌≡◌, refl, List, [], ◌∷◌, true, Option, none, some, arith, length, length-replicate, replicate,
}
use elastos_net_carrier_nati.Mux.Channel.{Rc}
use elastos_net_carrier_nati.Invite.Data.{Fragment, ElaCarrier, TransactedCallback}
use elastos_net_carrier_nati.Invite.Send.{invite_loop, parse_address}
use elastos_net_carrier_nati.Invite.Receive.{sender}
use elastos_net_carrier_nati.Invite.Address.{parse_address-sender}
use elastos_net_carrier_nati.Invite.Assembly.{receive_all}
use elastos_net_carrier_nati.Invite.Completion.{begun, IsCompleted, receive_all-IsCompleted}
use elastos_net_carrier_nati.Invite.Fragments.{request_pieces, invite-roundtrip}
use elastos_net_carrier_nati.Invite.Sending.{requests, Sent, invite_loop-Sent}
use elastos_net_carrier_nati.Invite.Simple.{simple, simple-IsLawfulTable, simple-IsLog}

abbrev carrier : ElaCarrier simple
carrier = record {
  is_ready = true;
  friend_invite = some (λ friendid bundle bs w. w);
  session_invite = none;
  tcallbacks = λ k. none;
  tassembly_ireqs = λ k. none;
  tassembly_irsps = λ k. none;
  thistory = λ k. none;
  world = [];
}

-- More than one fragment holds.
abbrev long : List ℕ
long = replicate 1300 7

abbrev bundle : Option (List ℕ)
bundle = some (98 ∷ [])

invite-roundtrip_example :
    IsCompleted
      (begun carrier)
      (receive_all carrier 0 (request_pieces (length long) none 5 bundle true 1 long))
      (97 ∷ [])
      none
      bundle
      long
      5
invite-roundtrip_example =
    invite-roundtrip simple-IsLawfulTable carrier (97 ∷ []) none bundle 5 0 long
      (omega (arith, length-replicate {A = ℕ} 1300 7))
      (omega (arith, length-replicate {A = ℕ} 1300 7)) (omega arith) (λ w. refl) refl refl

abbrev fragment : Fragment
fragment = record {
  extension = none;
  tid = 5;
  bundle = bundle;
  totalsz = 3;
  status = 0;
  reason = none;
  raw_data = 1 ∷ 2 ∷ [];
}

abbrev last : Fragment
last = record fragment { bundle = none; totalsz = 0; raw_data = 3 ∷ [] }

receive_all-IsCompleted_example :
    IsCompleted
      (begun carrier)
      (receive_all carrier 0 (fragment ∷ last ∷ []))
      (97 ∷ [])
      none
      bundle
      (1 ∷ 2 ∷ 3 ∷ [])
      5
receive_all-IsCompleted_example =
    receive_all-IsCompleted simple-IsLawfulTable (97 ∷ []) none bundle 5 0 (λ w. refl) carrier
      fragment (last ∷ [])
      (
        record { transaction = refl; extension = refl; positive = omega arith; unit = omega arith },
        (
          record {
            transaction = refl;
            extension = refl;
            positive = omega arith;
            unit = omega arith;
          },
          tt,
        ),
      )
      refl refl (omega arith) refl refl

abbrev tcb : TransactedCallback simple
tcb = record { tid = 5; callback_func = λ friendid b status reason bs w. w; bundle = bundle }

invite_loop-Sent_example :
    (r : Rc × ElaCarrier simple) × (invite_loop 1300 carrier 0 none tcb true 1 long ≡ some r)
    × Sent (λ w. w) carrier tcb (requests 0 (request_pieces 1300 none 5 bundle true 1 long)) r
invite_loop-Sent_example =
    invite_loop-Sent simple-IsLawfulTable (λ w. w) simple-IsLog 1300 carrier 0 none tcb true 1 long
      (omega (arith, length-replicate {A = ℕ} 1300 7))
      (omega (arith, length-replicate {A = ℕ} 1300 7)) (omega arith) refl

parse_address-sender_example :
    parse_address (sender (97 ∷ 98 ∷ []) (some (99 ∷ []))) ≡ (97 ∷ 98 ∷ [], some (99 ∷ []))
parse_address-sender_example = parse_address-sender (97 ∷ 98 ∷ []) (some (99 ∷ [])) refl
