-- ===== src/H2/Inner/Send/Live.antt =====
-- The steps of `send_data` leave its stream live.
use httpunk.Prelude.{
  ℕ, ◌+◌, ◌≡◌, refl, subst, Bool, false, ◌&&◌, some, List, arith, Option-cases, inl, inr, if-holds,
  option-cases, ltb, ◌==◌, if◌then◌else◌, count, count-without-le, count-without_self,
}
use httpunk.Prelude.Map.{lookup, lookup-insert_self}
use httpunk.H2.Vendor.{Vendor, VendorLaws}
use httpunk.H2.Errors.{Result}
use httpunk.H2.Inner.{StreamEntry, Inner, Flags, no_flags}
use httpunk.H2.Inner.Entry.{fc_send_data}
use httpunk.H2.Inner.Headers.{put_entry}
use httpunk.H2.Inner.Invariant.{IsValid, EntryValid, update-StoreValid}
use httpunk.H2.Inner.Queues.{stream_room, enqueue_capacity, leave_send_queue}
use httpunk.H2.Inner.Queues.Valid.{is_ended, leave_send_queue-IsValid}
use httpunk.H2.Inner.Queues.Live.{Live, enqueue_capacity-Live, leave_send_queue-Live}
use httpunk.H2.Inner.Reset.Valid.{finish_stream-IsValid}
use httpunk.H2.Inner.Send.{
  encode_data, take_bytes, close_send, wait_for_window, stop_waiting, end_turn,
}

module _ (v : Vendor) (l : VendorLaws v) where
  -- An entry changes what no queue and no counter depends on.
  put-Live :
      (sid : ℕ) (e e' : StreamEntry v) (s : Inner v)
      → lookup sid s.streams ≡ some e
      → e'.finished ≡ e.finished
      → e'.is_pending_send ≡ e.is_pending_send
      → e'.is_pending_capacity ≡ e.is_pending_capacity
      → e'.holds_slot ≡ e.holds_slot
      → Live v sid s
      → Live v sid (put_entry v sid e' s)
  put-Live sid e e' s p f q c o (h, live) =
      let alive : e.finished ≡ false = subst (λ x. is_ended v x ≡ false) p live in
      (
        update-StoreValid v h sid e e' _ _ _ _ p (ground (arith, f)) (ground (arith, o))
            (ground (arith, h.entries sid, f, q, c, alive)) (λ j n. omega arith),
        rw (lookup-insert_self sid e' s.streams, f, alive) refl,
      )

  pub at_sid :
      (sid : ℕ) {e : StreamEntry v} (s : Inner v)
      → IsValid v s
      → lookup sid s.streams ≡ some e
      → EntryValid v (some e) (count sid s.pending_send) (count sid s.pending_capacity)
  at_sid sid {e} s h p =
      subst (λ o. EntryValid v o (count sid s.pending_send) (count sid s.pending_capacity)) p
        (h.entries sid)

  pub encode_data-Live :
      (sid : ℕ) (bytes : List ℕ) (last : Bool) (s : Inner v)
      → Live v sid s
      → Live v sid (encode_data v sid bytes last s).0
  unfolding encode_data
  encode_data-Live sid bytes last s h =
      if-holds (λ (r : Inner v × Result (Unit {0})). Live v sid r.0) _ _ _ h h

  pub stop_waiting-Live :
      (sid : ℕ) (e : StreamEntry v) (s : Inner v)
      → lookup sid s.streams ≡ some e
      → Live v sid s
      → Live v sid (stop_waiting v sid e s)
  unfolding stop_waiting
  stop_waiting-Live sid e s p (h, live) =
      let alive : e.finished ≡ false = subst (λ x. is_ended v x ≡ false) p live in
      let e' = record e { is_pending_capacity = false } in
      if-holds (Live v sid) e.is_pending_capacity _ _
        (
          update-StoreValid v h sid e e' _ _ _ _ p refl (omega arith)
              (ground (arith, h.entries sid, alive, count-without_self sid s.pending_capacity))
              (λ j n. (omega arith, count-without-le sid j s.pending_capacity)),
          rw (lookup-insert_self sid e' s.streams) alive,
        )
        (h, live)

  pub wait_for_window-IsValid :
      (sid room : ℕ) (s : Inner v) → Live v sid s → IsValid v (wait_for_window v sid room s).0
  unfolding wait_for_window
  wait_for_window-IsValid sid room s live =
      leave_send_queue-IsValid v _ sid
        (if-holds (IsValid v) _ _ _ (enqueue_capacity-Live v sid s live).0 live.0)

  pub close_send-IsValid :
      (now before n : ℕ) (f : Flags) (sid : ℕ) (s : Inner v)
      → Live v sid s
      → IsValid v (close_send v now before n f sid s).0
  unfolding close_send
  close_send-IsValid now before n f sid s live = finish_stream-IsValid v l _ now sid (
      option-cases (IsValid v) (lookup sid s.streams) s _ (λ _. live.0)
        (λ e p.
          (put-Live sid e (record e { state = v.send_close e.state }) s p refl refl refl refl
            live).0))

  pub take_bytes-Live :
      (sid n : ℕ) (e : StreamEntry v) (s : Inner v)
      → lookup sid s.streams ≡ some e
      → Live v sid s
      → Live v sid (take_bytes v sid n e s).0
  unfolding take_bytes
  take_bytes-Live sid n e s p live =
      let (fc, over) = fc_send_data v e.send_flow n in
      let s1 : Inner v = record s { conn_send = (fc_send_data v s.conn_send n).0 } in
      elim (Option-cases (fc_send_data v s.conn_send n).1) [
        | inr (reason, broke) ↦ rw (take_bytes, broke) live
        | inl fits ↦ elim (Option-cases over) [
          | inr (reason, broke) ↦
              rw (take_bytes, fits, broke)
                (put-Live sid e (record e { send_flow = fc }) s1 p refl refl refl refl live)
          | inl fits_too ↦
              rw (take_bytes, fits, fits_too)
                (put-Live sid e
                  (record e {
                    send_flow = fc;
                    send_buffered = e.send_buffered + n;
                    turn_frames = e.turn_frames + 1;
                  })
                  s1 p refl refl refl refl live)
        ]
      ]

  pub end_turn-Live :
      (sid : ℕ) (finished_chunk : Bool) (s : Inner v)
      → Live v sid s
      → Live v sid (end_turn v sid finished_chunk s).0
  unfolding end_turn
  end_turn-Live sid finished_chunk s live =
      let Kept = λ (r : Inner v × Flags). Live v sid r.0 in
      let leaves = leave_send_queue-Live v sid s live in
      if-holds Kept finished_chunk _ _ leaves (
        option-cases Kept (lookup sid s.streams) _ _ (λ _. live)
          (λ e p.
            let room = stream_room v s e in
            let rest = if room == 0 then leave_send_queue v s sid else (s, no_flags) in
            if-holds Kept ((v.window_size s.conn_send == 0) && ltb 0 room)
              (leave_send_queue v (enqueue_capacity v s sid) sid) rest
              (leave_send_queue-Live v sid (enqueue_capacity v s sid)
                (enqueue_capacity-Live v sid s live))
              (if-holds Kept (room == 0) (leave_send_queue v s sid) (s, no_flags) leaves live)))
