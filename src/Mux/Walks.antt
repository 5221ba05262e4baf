-- ===== src/Mux/Walks.antt =====
-- The two walks over all channels, `multiplex_handler_checkpoint` and
-- `multiplex_handler_close_channels` of src/session/multiplex_handler.c.
use elastos_net_carrier_nati.Base.{
  ℕ, ◌≡◌, ◌∙◌, ◌⊎◌, inl, inr, List, [], ◌∷◌, true, false, Option, none, arith, ◌==◌, if◌then◌else◌,
  Bool-cases, Option-cases,
}
use elastos_net_carrier_nati.Mux.Channel.{
  Channel, CloseReason, System, IsLawful, Timeval, AllIn, HasDistinctIds, has_id,
}
use elastos_net_carrier_nati.Mux.Handler.{
  MultiplexHandler, notify_channel_close, read_clock, channels_get, channels_remove,
}
use elastos_net_carrier_nati.Mux.Checkpoint.{
  check_channel, check_channels, multiplex_handler_checkpoint, close_each,
  multiplex_handler_close_channels,
}
use elastos_net_carrier_nati.Mux.Effects.{
  is_some, Touches, notify_close-same, read_clock-same, channels_remove-Touches,
}
use elastos_net_carrier_nati.Mux.Consistency.{
  IsConsistent, same-IsConsistent, Touches-IsConsistent, consistent-Holds, Steps-IsConsistent,
}
use elastos_net_carrier_nati.Mux.LocalEffects.{check_channel-Steps}

-- A step at an id that the list does not have leaves its channels in the table.
AllIn-Touches :
    {sys : System} {h h' : MultiplexHandler sys} {id : ℕ} {r : Option Channel}
    → Touches h h' id r
    → (cs : List Channel) → has_id id cs ≡ false
    → AllIn (channels_get h) cs
    → AllIn (channels_get h') cs
AllIn-Touches t [] n a = tt
AllIn-Touches {id = id} t (c ∷ cs) n a = elim (Bool-cases (c.id == id)) [
  | inl hit ↦ ground arith
  | inr miss ↦ (ground (arith, t.table c.id), AllIn-Touches t cs (ground arith) a.1)
]

module _ {sys : System} (law : IsLawful sys) where
  open sys use {ids_used, table_entries}

  check_channels-IsConsistent :
      (now : Timeval) (cs : List Channel) (h : MultiplexHandler sys)
      → IsConsistent h
      → AllIn (channels_get h) cs
      → HasDistinctIds cs
      → IsConsistent (check_channels h now cs)
  unfolding check_channels
  check_channels-IsConsistent now [] h v a d = v
  check_channels-IsConsistent now (c ∷ cs) h v a d =
      let s = check_channel-Steps law h c (consistent-Holds c.id c v a.0) now in
      check_channels-IsConsistent now cs (check_channel h now c) (Steps-IsConsistent c.id c v a.0 s)
        (AllIn-Touches s.1 cs d.0 a.1) d.1

  pub checkpoint-IsConsistent :
      (h : MultiplexHandler sys) → IsConsistent h → IsConsistent (multiplex_handler_checkpoint h)
  unfolding multiplex_handler_checkpoint channels_get
  checkpoint-IsConsistent h v =
      let v1 = same-IsConsistent v (read_clock-same h) in
      let h1 = (read_clock h).1 in
      let (a, d) = law.entries_found h1.channels (λ k c e. (v1.named k c e).0) in
      check_channels-IsConsistent (read_clock h).0 (table_entries h1.channels) h1 v1 a d

  -- Removing a channel, whether the table has it or not.
  remove-get :
      (h : MultiplexHandler sys) (id k : ℕ)
      → IsConsistent h
      → IsConsistent (channels_remove h id)
        × (channels_get (channels_remove h id) k ≡ (if id == k then none else channels_get h k))
  remove-get h id k v = elim (Option-cases (channels_get h id)) [
    | inl e ↦
        let gone : channels_remove h id ≡ h = unfold channels_remove channels_get in ground arith in
        rw gone (v, ground arith)
    | inr (c, e) ↦
        let (i, p, q) = v.named id c e in
        let t = channels_remove-Touches law h id c e i p in
        (Touches-IsConsistent v id none p q (λ c f. cc) t, t.table k)
  ]

  close_each-IsConsistent :
      (reason : CloseReason) (cs : List Channel) (h : MultiplexHandler sys)
      → IsConsistent h
      → ((k : ℕ) → (is_some (channels_get h k) ≡ false) ⊎ (has_id k cs ≡ true))
      → IsConsistent (close_each h reason cs)
        × ((k : ℕ) → is_some (channels_get (close_each h reason cs) k) ≡ false)
  unfolding close_each
  close_each-IsConsistent reason [] h v all = (v, λ k. ground (arith, all k))
  close_each-IsConsistent reason (c ∷ cs) h v all =
      close_each-IsConsistent reason cs (notify_channel_close (channels_remove h c.id) c reason)
        (same-IsConsistent (remove-get h c.id 0 v).0 (notify_close-same _ c reason))
        (λ k.
          unfold channels_get in
          ground (
            arith,
            (remove-get h c.id k v).1,
            all k,
            (notify_close-same (channels_remove h c.id) c reason).channels,
          ))

  -- Closing all channels leaves none, and gives every id back, whatever the callbacks do.
  pub close_channels_lem :
      (h : MultiplexHandler sys) (reason : CloseReason)
      → IsConsistent h
      → IsConsistent (multiplex_handler_close_channels h reason)
        × ((k : ℕ)
            → (channels_get (multiplex_handler_close_channels h reason) k ≡ none)
              × (ids_used (multiplex_handler_close_channels h reason).channel_ids k ≡ false))
  unfolding multiplex_handler_close_channels
  close_channels_lem h reason v =
      let (w, none_left) = close_each-IsConsistent reason (table_entries h.channels) h v listed in
      (w, λ k. (ground (arith, none_left k), w.agree k ∙ none_left k))
    where
      listed :
          (k : ℕ)
          → (is_some (channels_get h k) ≡ false) ⊎ (has_id k (table_entries h.channels) ≡ true)
      listed k = elim (Option-cases (channels_get h k)) [
        | inl e ↦ inl (ground arith)
        | inr (c, e) ↦
            inr (law.entries_complete h.channels k c (unfold channels_get in e) (v.named k c e).0)
      ]
