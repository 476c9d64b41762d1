-- ===== src/H2/Inner/Send/Valid.antt =====
-- `send_data` keeps `Inner` well formed.
use httpunk.Prelude.{
  ℕ, ◌-◌, ◌≡◌, min, Bool, true, false, ◌&&◌, some, List, [], arith, Option-cases, Bool-cases, inl,
  inr, if-holds, option-cases, length, leb, ltb, ◌==◌, if◌then◌else◌, take, drop,
}
use httpunk.Prelude.Map.{lookup}
use httpunk.H2.Vendor.{Vendor, VendorLaws}
use httpunk.H2.Errors.{Result, ok}
use httpunk.H2.Result.{Result-cases}
use httpunk.H2.Inner.{StreamEntry, Inner, Flags, no_flags}
use httpunk.H2.Inner.Invariant.{IsValid}
use httpunk.H2.Inner.Queues.{stream_room, send_front, enqueue_send, yield_send_turn}
use httpunk.H2.Inner.Queues.Turns.{yield_send_turn-IsValid}
use httpunk.H2.Inner.Queues.Live.{Live, send_front-Live, enqueue_send-Live}
use httpunk.H2.Inner.Send.{
  SendVerdict, frame_size, encode_data, take_bytes, send_empty, wait_for_window, stop_waiting,
  emit_frame, send_frame, send_turn, line_up, send_chunk, is_nil, send_data, no_window, end_turn,
}
use httpunk.H2.Inner.Send.Live.{
  at_sid, encode_data-Live, stop_waiting-Live, wait_for_window-IsValid, close_send-IsValid,
  take_bytes-Live, end_turn-Live,
}

module _ (v : Vendor) (l : VendorLaws v) where
  emit_frame-IsValid :
      (now before sid : ℕ) (bytes : List ℕ) (n want : ℕ) (last : Bool) (f : Flags) (s : Inner v)
      → Live v sid s
      → IsValid v (emit_frame v now before sid bytes n want last f s).0
  unfolding emit_frame
  emit_frame-IsValid now before sid bytes n want last f s live =
      let queued = encode_data-Live v l sid bytes last s live in
      elim (Result-cases (encode_data v sid bytes last s).1) [
        | inr (x, refused) ↦ rw (emit_frame, refused) queued.0
        | inl (_, fine) ↦
            rw (emit_frame, fine)
              (if-holds (λ (r : Inner v × Result SendVerdict). IsValid v r.0) last _ _
                (close_send-IsValid v l now before n f sid _ queued) queued.0)
      ]

  send_frame-IsValid :
      (now sid : ℕ) (bytes : List ℕ) (offset : ℕ) (end_stream : Bool) (budget : ℕ)
      (e : StreamEntry v) (s : Inner v)
      → lookup sid s.streams ≡ some e
      → Live v sid s
      → IsValid v (send_frame v now sid bytes offset end_stream budget e s).0
  unfolding send_frame
  send_frame-IsValid now sid bytes offset end_stream budget e s p live =
      let want = length bytes - offset in
      let n = frame_size v budget want s in
      let s1 = (take_bytes v sid n e s).0 in
      let taken = take_bytes-Live v l sid n e s p live in
      elim (Result-cases (take_bytes v sid n e s).1) [
        | inr (x, refused) ↦ rw (send_frame, refused) taken.0
        | inl (_, fine) ↦
            rw (send_frame, fine)
              (emit_frame-IsValid now (length s.pending) sid (take n (drop offset bytes)) n want
                (end_stream && (n == want)) (end_turn v sid (n == want) s1).1
                (end_turn v sid (n == want) s1).0 (end_turn-Live v l sid (n == want) s1 taken))
      ]

  send_turn-IsValid :
      (now sid : ℕ) (bytes : List ℕ) (offset : ℕ) (end_stream : Bool) (budget : ℕ) (s : Inner v)
      → Live v sid s
      → IsValid v (send_turn v now sid bytes offset end_stream budget s).0
  unfolding send_turn
  send_turn-IsValid now sid bytes offset end_stream budget s live =
      let Kept = λ (r : Inner v × Result SendVerdict). IsValid v r.0 in
      option-cases Kept (lookup sid s.streams) _ _ (λ _. live.0)
        (λ e p.
          let over = leb s.burst_frames e.turn_frames in
          let frame = send_frame v now sid bytes offset end_stream budget e s in
          let stay : Inner v × Result SendVerdict = (s, ok (no_window no_flags)) in
          let turned = yield_send_turn v s sid in
          if-holds Kept (over && ltb 1 (length s.pending_send)) (turned.0, ok (no_window turned.1))
            (if over && ltb 1 s.num_active then stay else frame)
            (yield_send_turn-IsValid v s sid live.0)
            (if-holds Kept (over && ltb 1 s.num_active) stay frame live.0
              (send_frame-IsValid now sid bytes offset end_stream budget e s p live)))

  line_up-IsValid :
      (now sid : ℕ) (bytes : List ℕ) (offset : ℕ) (end_stream : Bool) (budget : ℕ) (s : Inner v)
      → Live v sid s
      → IsValid v (line_up v now sid bytes offset end_stream budget s).0
  unfolding line_up
  line_up-IsValid now sid bytes offset end_stream budget s live =
      let Kept = λ (r : Inner v × Result SendVerdict). IsValid v r.0 in
      let fronted = send_front-Live v sid s live in
      let queued = enqueue_send-Live v sid _ fronted in
      let s1 = (send_front v s).0 in
      let aside : Inner v × Result SendVerdict = (enqueue_send v s1 sid, ok (no_window no_flags)) in
      elim (Option-cases (send_front v s).1) [
        | inl alone ↦
            rw (line_up, alone)
              (send_turn-IsValid now sid bytes offset end_stream budget (enqueue_send v s1 sid)
                queued)
        | inr (head, ahead) ↦
            rw (line_up, ahead)
              (if-holds Kept (head == sid) (send_turn v now sid bytes offset end_stream budget s1)
                aside (send_turn-IsValid now sid bytes offset end_stream budget s1 fronted)
                queued.0)
      ]

  send_empty-IsValid :
      (now sid : ℕ) (end_stream : Bool) (s : Inner v)
      → Live v sid s
      → IsValid v (send_empty v now sid end_stream s).0
  unfolding send_empty
  send_empty-IsValid now sid true s live =
      let queued = encode_data-Live v l sid [] true s live in
      elim (Result-cases (encode_data v sid [] true s).1) [
        | inr (x, refused) ↦ rw (send_empty, refused) queued.0
        | inl (_, fine) ↦
            rw (send_empty, fine)
              (close_send-IsValid v l now (length s.pending) 0 no_flags sid
                (encode_data v sid [] true s).0 queued)
      ]
  send_empty-IsValid now sid false s live =
      let queued = encode_data-Live v l sid [] false s live in
      elim (Result-cases (encode_data v sid [] false s).1) [
        | inr (x, refused) ↦ rw (send_empty, refused) queued.0
        | inl (_, fine) ↦ rw (send_empty, fine) queued.0
      ]

  send_chunk-IsValid :
      (now sid : ℕ) (bytes : List ℕ) (offset : ℕ) (end_stream : Bool) (e : StreamEntry v)
      (s : Inner v)
      → lookup sid s.streams ≡ some e
      → Live v sid s
      → IsValid v (send_chunk v now sid bytes offset end_stream e s).0
  unfolding send_chunk
  send_chunk-IsValid now sid bytes offset end_stream e s p live =
      let room = stream_room v s e in
      let budget = min room (v.window_size s.conn_send) in
      if-holds (λ (r : Inner v × Result SendVerdict). IsValid v r.0) (budget == 0)
        (wait_for_window v sid room s)
        (line_up v now sid bytes offset end_stream budget (stop_waiting v sid e s))
        (wait_for_window-IsValid v l sid room s live)
        (line_up-IsValid now sid bytes offset end_stream budget (stop_waiting v sid e s)
          (stop_waiting-Live v l sid e s p live))

  -- A call of `send_data` keeps the connection state well formed, on every branch: refused,
  -- stopped, waiting for the window, waiting for its turn, or framed, with the close of the send
  -- half.
  pub send_data-IsValid :
      (now sid : ℕ) (bytes : List ℕ) (offset : ℕ) (end_stream : Bool) (s : Inner v)
      → IsValid v s
      → IsValid v (send_data v now sid bytes offset end_stream s).0
  unfolding send_data
  send_data-IsValid now sid bytes offset end_stream s h =
      elim (Option-cases (lookup sid s.streams)) [
        | inl gone ↦ rw (send_data, gone) h
        | inr (e, p) ↦ elim (Bool-cases (v.is_send_streaming e.state)) [
          | inr shut ↦ rw (send_data, p, shut) h
          | inl open_half ↦
              let going : e.finished ≡ false =
                ground (arith, open_half, l.closed_send e.state, at_sid v l sid s h p) in
              let live : Live v sid s = (h, rw p going) in
              elim (Bool-cases (is_nil v bytes)) [
                | inl bare ↦
                    rw (send_data, p, open_half, bare)
                      (send_empty-IsValid now sid end_stream s live)
                | inr full ↦
                    rw (send_data, p, open_half, full)
                      (send_chunk-IsValid now sid bytes offset end_stream e s p live)
              ]
        ]
      ]
