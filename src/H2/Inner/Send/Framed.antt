-- ===== src/H2/Inner/Send/Framed.antt =====
-- What one call of `send_data` leaves in the pending buffer.
use httpunk.Prelude.{
  ℕ, ◌-◌, ◌≤◌, ◌≡◌, refl, sym, ap, ◌∙◌, min, Bool, true, false, not, ◌&&◌, none, some, List, [],
  ◌∷◌, ◌++◌, arith, Option-cases, Bool-cases, inl, inr, if-holds, if◌then◌else◌, length, leb, ltb,
  ◌==◌, take, drop,
}
use mathlib.Core.List.{append-nil}
use httpunk.Prelude.Map.{lookup}
use httpunk.H2.Vendor.{Vendor, payload_too_big}
use httpunk.H2.Errors.{user_misuse, Result, ok, err}
use httpunk.H2.Result.{Result-cases}
use httpunk.H2.Inner.{StreamEntry, Inner, Frame, data_frame, Flags, no_flags}
use httpunk.H2.Inner.Payload.{payload_of, payload_of-append}
use httpunk.H2.Inner.Queues.{
  stream_room, send_front, enqueue_send, enqueue_capacity, yield_send_turn,
}
use httpunk.H2.Inner.Queues.Pending.{
  send_front_pending, enqueue_send_pending, enqueue_capacity_pending, leave_send_queue_pending,
  yield_send_turn_pending,
}
use httpunk.H2.Inner.Entry.{stopped}
use httpunk.H2.Inner.Reset.Quiet.{finish_stream-Quiet}
use httpunk.H2.Inner.Headers.{put_entry, queue}
use httpunk.H2.Inner.Send.{
  SendVerdict, no_window, stopped_send, add_credit, frame_size, encode_data, take_bytes, end_turn,
  close_send, send_empty, wait_for_window, stop_waiting, emit_frame, send_frame, send_turn, line_up,
  send_chunk, is_nil, send_data,
}
use httpunk.H2.Inner.Send.Bounds.{sent_of, allowed, send_empty_sent, send_data_sent}

take_none : (xs : List ℕ) → take 0 xs ≡ []
take_none [] = refl
take_none (x ∷ xs) = refl

module _ (v : Vendor) (now sid : ℕ) where
  module _ (bytes : List ℕ) (last : Bool) (s : Inner v) where
    encode_data_big :
        ltb s.send_max_frame_size (length bytes) ≡ true
        → encode_data v sid bytes last s ≡ (s, err (user_misuse payload_too_big))
    unfolding encode_data
    encode_data_big h = rw (encode_data, h)

    encode_data_fits :
        ltb s.send_max_frame_size (length bytes) ≡ false
        → encode_data v sid bytes last s ≡ (queue v (data_frame sid bytes last) s, ok tt)
    unfolding encode_data
    encode_data_fits h = rw (encode_data, h)

  take_bytes_pending :
      (n : ℕ) (e : StreamEntry v) (s : Inner v) → (take_bytes v sid n e s).0.pending ≡ s.pending
  unfolding take_bytes
  take_bytes_pending n e s = ground arith

  end_turn_pending : (whole : Bool) (s : Inner v) → (end_turn v sid whole s).0.pending ≡ s.pending
  unfolding end_turn
  end_turn_pending whole s = ground (
    arith,
    leave_send_queue_pending v s sid,
    leave_send_queue_pending v (enqueue_capacity v s sid) sid,
    enqueue_capacity_pending v s sid,
  )

  wait_for_window_pending :
      (room : ℕ) (s : Inner v) → (wait_for_window v sid room s).0.pending ≡ s.pending
  unfolding wait_for_window
  wait_for_window_pending room s = ground (
    arith,
    leave_send_queue_pending v s sid,
    leave_send_queue_pending v (enqueue_capacity v s sid) sid,
    enqueue_capacity_pending v s sid,
  )

  stop_waiting_pending :
      (e : StreamEntry v) (s : Inner v) → (stop_waiting v sid e s).pending ≡ s.pending
  unfolding stop_waiting
  stop_waiting_pending e s = ground arith

  module _ (k : ℕ) where
    close_send_payload :
        (before n : ℕ) (f : Flags) (s : Inner v)
        → payload_of k (close_send v now before n f sid s).0.pending ≡ payload_of k s.pending
    unfolding close_send
    close_send_payload before n f s = elim (Option-cases (lookup sid s.streams)) [
      | inl absent ↦ rw (absent, close_send) (finish_stream-Quiet v s now sid k)
      | inr (e, p) ↦
          rw (p, close_send)
            (finish_stream-Quiet v (put_entry v sid (record e { state = v.send_close e.state }) s)
              now sid k)
    ]

    -- The stream's bytes in the buffer grow by the data that the verdict counts, and nobody else's.
    abbrev pub Frames : List ℕ → Inner v → Inner v × Result SendVerdict → Type 0
    Frames chunk s (t, r) =
        payload_of k t.pending
        ≡ payload_of k s.pending ++ (if k == sid then take (sent_of r) chunk else [])

    unsent-Frames :
        (chunk : List ℕ) (s : Inner v) (t : Inner v) (r : Result SendVerdict)
        → payload_of k t.pending ≡ payload_of k s.pending
        → sent_of r ≡ 0
        → Frames chunk s (t, r)
    unsent-Frames chunk s t r p n = elim (Bool-cases (k == sid)) [
      | inl own ↦ rw (own, n, take_none chunk) (p ∙ sym (append-nil (payload_of k s.pending)))
      | inr other ↦ rw other (p ∙ sym (append-nil (payload_of k s.pending)))
    ]

    same_start-Frames :
        (chunk : List ℕ) (s s' : Inner v) (r : Inner v × Result SendVerdict)
        → s'.pending ≡ s.pending
        → Frames chunk s' r
        → Frames chunk s r
    same_start-Frames chunk s s' (t, r) p h =
        h
        ∙ ap
            (λ (fs : List Frame).
              payload_of k fs ++ (if k == sid then take (sent_of r) chunk else []))
            p

    -- The bytes of a DATA frame of the stream, at the end of the buffer.
    payload_of_own :
        (chunk : List ℕ) (last : Bool) (s : Inner v)
        → payload_of k (s.pending ++ data_frame sid chunk last ∷ [])
          ≡ payload_of k s.pending ++ (if k == sid then chunk else [])
    payload_of_own chunk last s =
        payload_of-append k s.pending (data_frame sid chunk last ∷ [])
        ∙ ap (λ (x : List ℕ). payload_of k s.pending ++ x)
            (append-nil (if k == sid then chunk else []))

    -- A frame that was queued, in the buffer.
    queued_payload :
        (chunk : List ℕ) (last : Bool) (s : Inner v)
        → ltb s.send_max_frame_size (length chunk) ≡ false
        → payload_of k (encode_data v sid chunk last s).0.pending
          ≡ payload_of k s.pending ++ (if k == sid then chunk else [])
    queued_payload chunk last s fits =
        ap (λ (r : Inner v × Result (Unit {0})). payload_of k r.0.pending)
          (encode_data_fits chunk last s fits)
        ∙ payload_of_own chunk last s

    refused_payload :
        (chunk : List ℕ) (last : Bool) (s : Inner v)
        → ltb s.send_max_frame_size (length chunk) ≡ true
        → payload_of k (encode_data v sid chunk last s).0.pending ≡ payload_of k s.pending
    refused_payload chunk last s too_big =
        ap (λ (r : Inner v × Result (Unit {0})). payload_of k r.0.pending)
          (encode_data_big chunk last s too_big)

    emit_frame_refused :
        (before : ℕ) (chunk : List ℕ) (n want : ℕ) (last : Bool) (f : Flags) (s : Inner v)
        → ltb s.send_max_frame_size (length (take n chunk)) ≡ true
        → Frames chunk s (emit_frame v now before sid (take n chunk) n want last f s)
    unfolding emit_frame
    emit_frame_refused before chunk n want last f s too_big =
        rw (emit_frame, ap (λ r. r.1) (encode_data_big (take n chunk) last s too_big))
          (unsent-Frames chunk s (encode_data v sid (take n chunk) last s).0
            (err (user_misuse payload_too_big)) (refused_payload (take n chunk) last s too_big)
            refl)

    emit_frame_queued :
        (before : ℕ) (chunk : List ℕ) (n want : ℕ) (last : Bool) (f : Flags) (s : Inner v)
        → ltb s.send_max_frame_size (length (take n chunk)) ≡ false
        → Frames chunk s (emit_frame v now before sid (take n chunk) n want last f s)
    unfolding emit_frame
    emit_frame_queued before chunk n want false f s fits =
        rw (emit_frame, ap (λ r. r.1) (encode_data_fits (take n chunk) false s fits))
          (queued_payload (take n chunk) false s fits)
    emit_frame_queued before chunk n want true f s fits =
        let s1 = (encode_data v sid (take n chunk) true s).0 in
        rw (emit_frame, ap (λ r. r.1) (encode_data_fits (take n chunk) true s fits))
          (close_send_payload before n f (record s1 { credit = add_credit sid n s1.credit })
            ∙ queued_payload (take n chunk) true s fits)

    emit_frame-Frames :
        (before : ℕ) (chunk : List ℕ) (n want : ℕ) (last : Bool) (f : Flags) (s : Inner v)
        → Frames chunk s (emit_frame v now before sid (take n chunk) n want last f s)
    emit_frame-Frames before chunk n want last f s =
        elim (Bool-cases (ltb s.send_max_frame_size (length (take n chunk)))) [
          | inl too_big ↦ emit_frame_refused before chunk n want last f s too_big
          | inr fits ↦ emit_frame_queued before chunk n want last f s fits
        ]

    -- An empty DATA frame carries nothing.
    empty_payload :
        (end_stream : Bool) (s : Inner v)
        → payload_of k (encode_data v sid [] end_stream s).0.pending ≡ payload_of k s.pending
    empty_payload end_stream s = elim (Bool-cases (ltb s.send_max_frame_size 0)) [
      | inl too_big ↦ refused_payload [] end_stream s too_big
      | inr fits ↦ queued_payload [] end_stream s fits ∙ elim (Bool-cases (k == sid)) [
        | inl own ↦ rw own (append-nil (payload_of k s.pending))
        | inr other ↦ rw other (append-nil (payload_of k s.pending))
      ]
    ]

    send_empty_payload :
        (end_stream : Bool) (s : Inner v)
        → payload_of k (send_empty v now sid end_stream s).0.pending ≡ payload_of k s.pending
    unfolding send_empty
    send_empty_payload false s =
        let s1 = (encode_data v sid [] false s).0 in
        elim (Result-cases (encode_data v sid [] false s).1) [
          | inl (_, fine) ↦ rw (send_empty, fine) (empty_payload false s)
          | inr (x, refused) ↦ rw (send_empty, refused) (empty_payload false s)
        ]
    send_empty_payload true s =
        let s1 = (encode_data v sid [] true s).0 in
        elim (Result-cases (encode_data v sid [] true s).1) [
          | inl (_, fine) ↦
              rw (send_empty, fine)
                (close_send_payload (length s.pending) 0 no_flags s1 ∙ empty_payload true s)
          | inr (x, refused) ↦ rw (send_empty, refused) (empty_payload true s)
        ]

    send_empty-Frames :
        (chunk : List ℕ) (end_stream : Bool) (s : Inner v)
        → Frames chunk s (send_empty v now sid end_stream s)
    send_empty-Frames chunk end_stream s =
        let (t, r) = send_empty v now sid end_stream s in
        unsent-Frames chunk s t r (send_empty_payload end_stream s)
          (send_empty_sent v now sid end_stream s)

  -- The data that is left, sent from a state.
  module _ (k : ℕ) (bytes : List ℕ) (offset : ℕ) (end_stream : Bool) where
    abbrev Sends : Inner v → Inner v × Result SendVerdict → Type 0
    Sends s r = Frames k (drop offset bytes) s r

    -- Nothing is sent, and the buffer stays as it is.
    idle : (s t : Inner v) (f : Flags) → t.pending ≡ s.pending → Sends s (t, ok (no_window f))
    idle s t f p =
        unsent-Frames k (drop offset bytes) s t (ok (no_window f)) (ap (payload_of k) p) refl

    send_frame-Sends :
        (budget : ℕ) (e : StreamEntry v) (s : Inner v)
        → Sends s (send_frame v now sid bytes offset end_stream budget e s)
    unfolding send_frame
    send_frame-Sends budget e s =
        let chunk = drop offset bytes in
        let want = length bytes - offset in
        let n = frame_size v budget want s in
        let (s1, r) = take_bytes v sid n e s in
        let (s2, queue_flags) = end_turn v sid (n == want) s1 in
        let took = take_bytes_pending n e s in
        elim (Result-cases r) [
          | inr (x, refused) ↦
              rw (send_frame, refused)
                (unsent-Frames k chunk s s1 (err x) (ap (payload_of k) took) refl)
          | inl (_, fine) ↦
              let before = length s.pending in
              let last = end_stream && (n == want) in
              rw (send_frame, fine)
                (same_start-Frames k chunk s s2
                  (emit_frame v now before sid (take n chunk) n want last queue_flags s2)
                  (end_turn_pending (n == want) s1 ∙ took)
                  (emit_frame-Frames k before chunk n want last queue_flags s2))
        ]

    send_turn-Sends :
        (budget : ℕ) (s : Inner v) → Sends s (send_turn v now sid bytes offset end_stream budget s)
    unfolding send_turn
    send_turn-Sends budget s = elim (Option-cases (lookup sid s.streams)) [
      | inl absent ↦ rw (absent, send_turn) (idle s s no_flags refl)
      | inr (e, p) ↦
          rw (p, send_turn)
            (if-holds (Sends s) (leb s.burst_frames e.turn_frames && ltb 1 (length s.pending_send))
              _ _
              (idle s (yield_send_turn v s sid).0 (yield_send_turn v s sid).1
                (yield_send_turn_pending v s sid))
              (if-holds (Sends s) (leb s.burst_frames e.turn_frames && ltb 1 s.num_active) _ _
                (idle s s no_flags refl) (send_frame-Sends budget e s)))
    ]

    line_up-Sends :
        (budget : ℕ) (s : Inner v) → Sends s (line_up v now sid bytes offset end_stream budget s)
    unfolding line_up
    line_up-Sends budget s =
        let s1 = (send_front v s).0 in
        let lined = enqueue_send v s1 sid in
        let same = enqueue_send_pending v s1 sid ∙ send_front_pending v s in
        elim (Option-cases (send_front v s).1) [
          | inl alone ↦
              rw (alone, line_up)
                (same_start-Frames k (drop offset bytes) s lined
                  (send_turn v now sid bytes offset end_stream budget lined) same
                  (send_turn-Sends budget lined))
          | inr (head, p) ↦
              rw (p, line_up)
                (if-holds (Sends s) (head == sid) _ _
                  (same_start-Frames k (drop offset bytes) s s1
                    (send_turn v now sid bytes offset end_stream budget s1) (send_front_pending v s)
                    (send_turn-Sends budget s1))
                  (idle s lined no_flags same))
        ]

    send_chunk-Sends :
        (e : StreamEntry v) (s : Inner v)
        → Sends s (send_chunk v now sid bytes offset end_stream e s)
    unfolding send_chunk wait_for_window
    send_chunk-Sends e s =
        let room = stream_room v s e in
        let budget = min room (v.window_size s.conn_send) in
        let ready = stop_waiting v sid e s in
        if-holds (Sends s) (budget == 0) _ _
          (unsent-Frames k (drop offset bytes) s (wait_for_window v sid room s).0
            (wait_for_window v sid room s).1 (ap (payload_of k) (wait_for_window_pending room s))
            refl)
          (same_start-Frames k (drop offset bytes) s ready
            (line_up v now sid bytes offset end_stream budget ready) (stop_waiting_pending e s)
            (line_up-Sends budget ready))

    send_data-Sends : (s : Inner v) → Sends s (send_data v now sid bytes offset end_stream s)
    unfolding send_data
    send_data-Sends s =
        let chunk = drop offset bytes in
        elim (Option-cases (lookup sid s.streams)) [
          | inl absent ↦
              rw (absent, send_data)
                (unsent-Frames k chunk s s
                  (ok (stopped_send (record { reason = none; conn = false }))) refl refl)
          | inr (e, p) ↦
              rw (p, send_data)
                (if-holds (Sends s) (not (v.is_send_streaming e.state)) _ _
                  (unsent-Frames k chunk s s (ok (stopped_send (stopped v e))) refl refl)
                  (if-holds (Sends s) (is_nil v bytes) _ _ (send_empty-Frames k chunk end_stream s)
                    (send_chunk-Sends e s)))
        ]

  -- One call of `send_data` on a stored stream: the verdict's count of bytes is at most the room of
  -- the stream and its send buffer, the connection's window, the peer's frame size and what is left
  -- of the data, as they were before the call; the DATA frames that it queues, errors included,
  -- carry just that many bytes of the data from the offset on for that stream, and none for any
  -- other.
  pub send_data_framed :
      (s : Inner v) (bytes : List ℕ) (offset : ℕ) (end_stream : Bool) (e : StreamEntry v) (k : ℕ)
      → lookup sid s.streams ≡ some e
      → let (t, r) = send_data v now sid bytes offset end_stream s in
        (sent_of r ≤ allowed v s e bytes offset)
        × (payload_of k t.pending
            ≡ payload_of k s.pending
              ++ (if k == sid then take (sent_of r) (drop offset bytes) else []))
  send_data_framed s bytes offset end_stream e k p = (
    send_data_sent v s now sid bytes offset end_stream e p,
    send_data-Sends k bytes offset end_stream s,
  )
