-- ===== src/H2/Inner/Send/Bounds.antt =====
-- How much one call of `send_data` reports as sent.
use httpunk.Prelude.{
  ℕ, ◌-◌, ◌≤◌, ◌≡◌, refl, min, Bool, not, ◌&&◌, some, List, [], arith, Option-cases, Bool-cases,
  inl, inr, if-holds, ap, length, leb, ltb, ◌==◌,
}
use httpunk.Prelude.Map.{lookup}
use httpunk.H2.Vendor.{Vendor}
use httpunk.H2.Errors.{Result, ok, err}
use httpunk.H2.Result.{Result-cases}
use httpunk.H2.Inner.{StreamEntry, Inner, Flags}
use httpunk.H2.Inner.Queues.{stream_room, send_front, enqueue_send}
use httpunk.H2.Inner.Queues.Valid.{enqueue_send_peer, send_front_peer}
use httpunk.H2.Inner.Send.{
  SendVerdict, frame_size, encode_data, take_bytes, close_send, send_empty, wait_for_window,
  stop_waiting, emit_frame, send_frame, send_turn, line_up, send_chunk, is_nil, send_data,
}

-- The bytes that the verdict counts; an error has none.
abbrev pub sent_of : Result SendVerdict → ℕ
sent_of (ok x) = x.sent
sent_of (err x) = 0

module _ (v : Vendor) where
  emit_frame_sent :
      (now before sid : ℕ) (bytes : List ℕ) (n want : ℕ) (last : Bool) (f : Flags) (s : Inner v)
      → sent_of (emit_frame v now before sid bytes n want last f s).1 ≤ n
  unfolding emit_frame close_send
  emit_frame_sent now before sid bytes n want last f s =
      elim (Result-cases (encode_data v sid bytes last s).1) [
        | inl (_, fine) ↦ elim (Bool-cases last) [
          | inl final ↦ rw (emit_frame, fine, final) (omega arith)
          | inr more ↦ rw (emit_frame, fine, more) (omega arith)
        ]
        | inr (x, too_big) ↦ rw (emit_frame, too_big) (omega arith)
      ]

  send_frame_sent :
      (now sid : ℕ) (bytes : List ℕ) (offset : ℕ) (end_stream : Bool) (budget : ℕ)
      (e : StreamEntry v) (s : Inner v)
      → sent_of (send_frame v now sid bytes offset end_stream budget e s).1
        ≤ frame_size v budget (length bytes - offset) s
  unfolding send_frame
  send_frame_sent now sid bytes offset end_stream budget e s =
      elim (Result-cases (take_bytes v sid (frame_size v budget (length bytes - offset) s) e s).1) [
        | inl (_, fine) ↦ rw (send_frame, fine) (emit_frame_sent _ _ _ _ _ _ _ _ _)
        | inr (x, refused) ↦ rw (send_frame, refused) (omega arith)
      ]

  send_turn_sent :
      (now sid : ℕ) (bytes : List ℕ) (offset : ℕ) (end_stream : Bool) (budget : ℕ) (s : Inner v)
      → sent_of (send_turn v now sid bytes offset end_stream budget s).1
        ≤ frame_size v budget (length bytes - offset) s
  unfolding send_turn
  send_turn_sent now sid bytes offset end_stream budget s =
      elim (Option-cases (lookup sid s.streams)) [
        | inl e ↦ rw (e, send_turn) (omega arith)
        | inr (e, p) ↦
            rw (p, send_turn)
              (if-holds
                (λ (r : Inner v × Result SendVerdict).
                  sent_of r.1 ≤ frame_size v budget (length bytes - offset) s)
                (leb s.burst_frames e.turn_frames && ltb 1 (length s.pending_send)) _ _
                (omega arith)
                (if-holds
                  (λ (r : Inner v × Result SendVerdict).
                    sent_of r.1 ≤ frame_size v budget (length bytes - offset) s)
                  (leb s.burst_frames e.turn_frames && ltb 1 s.num_active) _ _ (omega arith)
                  (send_frame_sent now sid bytes offset end_stream budget e s)))
      ]

  line_up_sent :
      (now sid : ℕ) (bytes : List ℕ) (offset : ℕ) (end_stream : Bool) (budget : ℕ) (s : Inner v)
      → sent_of (line_up v now sid bytes offset end_stream budget s).1
        ≤ frame_size v budget (length bytes - offset) s
  unfolding line_up
  line_up_sent now sid bytes offset end_stream budget s = elim (Option-cases (send_front v s).1) [
    | inl alone ↦
        rw (alone, line_up)
          (omega (
            arith,
            send_turn_sent now sid bytes offset end_stream budget
                (enqueue_send v (send_front v s).0 sid),
            ap (λ x. x.max_frame_size) (enqueue_send_peer v (send_front v s).0 sid),
            ap (λ x. x.max_frame_size) (send_front_peer v s),
          ))
    | inr (head, p) ↦
        rw (p, line_up)
          (if-holds
            (λ (r : Inner v × Result SendVerdict).
              sent_of r.1 ≤ frame_size v budget (length bytes - offset) s)
            (head == sid) _ _
            (omega (
              arith,
              send_turn_sent now sid bytes offset end_stream budget (send_front v s).0,
              ap (λ x. x.max_frame_size) (send_front_peer v s),
            ))
            (omega arith))
  ]

  stop_waiting_peer :
      (sid : ℕ) (e : StreamEntry v) (s : Inner v) → (stop_waiting v sid e s).peer ≡ s.peer
  unfolding stop_waiting
  stop_waiting_peer sid e s = ground arith

  -- What one frame may take at most, in the state before the call.
  abbrev pub allowed : Inner v → StreamEntry v → List ℕ → ℕ → ℕ
  allowed s e bytes offset =
      frame_size v (min (stream_room v s e) (v.window_size s.conn_send)) (length bytes - offset) s

  send_chunk_sent :
      (now sid : ℕ) (bytes : List ℕ) (offset : ℕ) (end_stream : Bool) (e : StreamEntry v)
      (s : Inner v)
      → sent_of (send_chunk v now sid bytes offset end_stream e s).1 ≤ allowed s e bytes offset
  unfolding send_chunk wait_for_window
  send_chunk_sent now sid bytes offset end_stream e s =
      let budget = min (stream_room v s e) (v.window_size s.conn_send) in
      if-holds (λ (r : Inner v × Result SendVerdict). sent_of r.1 ≤ allowed s e bytes offset)
        (budget == 0) _ _ (omega arith)
        (omega (
          arith,
          line_up_sent now sid bytes offset end_stream budget (stop_waiting v sid e s),
          ap (λ x. x.max_frame_size) (stop_waiting_peer sid e s),
        ))

  pub send_empty_sent :
      (now sid : ℕ) (end_stream : Bool) (s : Inner v)
      → sent_of (send_empty v now sid end_stream s).1 ≡ 0
  unfolding send_empty close_send
  send_empty_sent now sid end_stream s = elim (Result-cases (encode_data v sid [] end_stream s).1) [
    | inl (_, fine) ↦ elim (Bool-cases end_stream) [
      | inl final ↦ rw (send_empty, fine, final) refl
      | inr more ↦ rw (send_empty, fine, more) refl
    ]
    | inr (x, too_big) ↦ rw (send_empty, too_big) refl
  ]

  -- The verdict's count is at most what one frame may take before the call.
  pub send_data_sent :
      (s : Inner v) (now sid : ℕ) (bytes : List ℕ) (offset : ℕ) (end_stream : Bool)
      (e : StreamEntry v)
      → lookup sid s.streams ≡ some e
      → sent_of (send_data v now sid bytes offset end_stream s).1 ≤ allowed s e bytes offset
  unfolding send_data
  send_data_sent s now sid bytes offset end_stream e p =
      rw (p, send_data)
        (if-holds (λ (r : Inner v × Result SendVerdict). sent_of r.1 ≤ allowed s e bytes offset)
          (not (v.is_send_streaming e.state)) _ _ (omega arith)
          (if-holds (λ (r : Inner v × Result SendVerdict). sent_of r.1 ≤ allowed s e bytes offset)
            (is_nil v bytes) _ _ (omega (arith, send_empty_sent now sid end_stream s))
            (send_chunk_sent now sid bytes offset end_stream e s)))
