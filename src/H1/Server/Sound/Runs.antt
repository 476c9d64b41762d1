-- ===== src/H1/Server/Sound/Runs.antt =====
-- Every sequence of calls on a server connection is sound.
use httpunk.Prelude.{ℕ, ◌+◌, ◌-◌, ◌^◌, ◌<◌, ◌≤◌, ◌≡◌, Bool, Option, List, [], ◌∷◌, arith, length}
use httpunk.H1.Hyper.{Hyper}
use httpunk.H1.Codec.{Codec}
use httpunk.H1.Codec.Encode.{
  serialize_data, serialize_end, serialize_trailers, serialize_head_and_body,
}
use httpunk.H1.Server.{Inner, new}
use httpunk.H1.Server.Calls.{
  Seen, Call, next_request, drained, unparked, read, deadline, read_failed, stopped, closing,
  unusable, shutdown, continue_claim, body_read, body_read_end, window_closed, arm, handle_stored,
  watched, watch_aborted, handle_taken, result_taken, respond, finished, response_failed, detached,
  body_fed, body_eof, body_decoded, framed, ended, trailed, written, step, run,
}
use httpunk.H1.Server.Sound.{IsValid, Sound, Onward, amount, held, stage, is_settled, stage-bound}
use httpunk.H1.Server.Sound.Reads
use httpunk.H1.Server.Sound.Requests
use httpunk.H1.Server.Sound.Responses

-- How often a number was handed out, and so on, over what was seen.
abbrev pub times : (Seen → Option ℕ) → ℕ → List Seen → ℕ
times f k [] = 0
times f k (seen ∷ more) = amount k (f seen) + times f k more

module _ (w : Hyper) where
  step-Sound : (k : ℕ) (c : Call w) (s : Inner w) → IsValid w s → Sound w k s (step w c s)
  unfolding step
  step-Sound k (next_request now) s v = Reads.begin_read-Sound w k now s v
  step-Sound k (drained now whole) s v = Reads.drain_done-Sound w k now whole s v
  step-Sound k unparked s v = Reads.unparked-Sound w k s v
  step-Sound k (read bytes) s v = Requests.read-Sound w k bytes s v
  step-Sound k (deadline now timeout) s v = Reads.deadline-Sound w k now timeout s v
  step-Sound k read_failed s v = Reads.read_failed-Sound w k s v
  step-Sound k stopped s v = Reads.stopped-Sound w k s v
  step-Sound k closing s v = Reads.closing-Sound w k s v
  step-Sound k unusable s v = Reads.unusable-Sound w k s v
  step-Sound k shutdown s v = Reads.shutdown-Sound w k s v
  step-Sound k (continue_claim seq) s v = Requests.continue-Sound w k seq s v
  step-Sound k (body_read seq) s v = Requests.body_read-Sound w k seq s v
  step-Sound k (body_read_end seq whole) s v = Requests.body_read_end-Sound w k seq whole s v
  step-Sound k (window_closed seq) s v = Requests.window_closed-Sound w k seq s v
  step-Sound k (arm seq done want negotiated) s v =
      Requests.arm-Sound w k seq done want negotiated s v
  step-Sound k (handle_stored handle) s v = Requests.handle_stored-Sound w k handle s v
  step-Sound k (watched bytes error) s v = Requests.watched-Sound w k bytes error s v
  step-Sound k watch_aborted s v = Requests.watch_aborted-Sound w k s v
  step-Sound k handle_taken s v = Requests.handle_taken-Sound w k s v
  step-Sound k result_taken s v = Requests.result_taken-Sound w k s v
  step-Sound k (respond seq r) s v = Responses.respond-Sound w k seq r s v
  step-Sound k (finished seq) s v = Responses.finished-Sound w k seq s v
  step-Sound k (response_failed seq) s v = Responses.response_failed-Sound w k seq s v
  step-Sound k (detached seq) s v = Responses.detached-Sound w k seq s v
  step-Sound k (body_fed bytes) s v = Responses.body_fed-Sound w k bytes s v
  step-Sound k body_eof s v = Responses.body_eof-Sound w k s v
  step-Sound k body_decoded s v = Responses.body_decoded-Sound w k s v
  step-Sound k (framed chunk) s v = Responses.codec-Sound w k (serialize_data w chunk s.codec).0 s v
  step-Sound k ended s v = Responses.codec-Sound w k (serialize_end w s.codec).0 s v
  step-Sound k (trailed trailers) s v =
      Responses.codec-Sound w k (serialize_trailers w trailers s.codec).0 s v
  step-Sound k (written head body trailers) s v =
      Responses.codec-Sound w k (serialize_head_and_body w head body trailers s.codec).0 s v

  new-IsValid :
      (codec : Codec w) (transport : ℕ) (keep_alive half_close : Bool)
      → IsValid w (new w codec transport keep_alive half_close)
  unfolding new
  new-IsValid codec transport keep_alive half_close = ground arith

  -- Any sequence of calls keeps a server connection well formed: its flags agree with each other
  -- and with the transport, and the request's flags come in the order of its life.
  pub run-IsValid : (cs : List (Call w)) (s : Inner w) → IsValid w s → IsValid w (run w cs s).0
  unfolding run
  run-IsValid [] s v = v
  run-IsValid (c ∷ cs) s v = run-IsValid cs (step w c s).0 (step-Sound 0 c s v).0

  -- Over any sequence of calls a well-formed server connection never reopens, never becomes
  -- reusable again, and never takes back its hand-off or its shutdown.
  pub run-Onward : (cs : List (Call w)) (s : Inner w) → IsValid w s → Onward w s (run w cs s).0
  unfolding run
  run-Onward [] s v = ground arith
  run-Onward (c ∷ cs) s v =
      let first = step-Sound 0 c s v in
      ground (arith, first.1.0, run-Onward cs (step w c s).0 first.0)

  -- Over any sequence of calls on a well-formed server connection the transport is handed out, for
  -- its close or as a tunnel, as often as the connection stops holding it: never twice.
  pub transport-run :
      (cs : List (Call w)) (s : Inner w) (t : ℕ)
      → IsValid w s
      → times (λ seen. seen.handed) t (run w cs s).1 + amount t (run w cs s).0.transport
        ≡ amount t s.transport
  unfolding run
  transport-run [] s t v = omega arith
  transport-run (c ∷ cs) s t v =
      let first = step-Sound t c s v in
      omega (arith, first.1.1.0.0, transport-run cs (step w c s).0 t first.0)

  -- Over any sequence of calls on a well-formed server connection each watcher's handle is taken or
  -- still held exactly as often as it was stored.
  pub handles-run :
      (cs : List (Call w)) (s : Inner w) (handle : ℕ)
      → IsValid w s
      → times (λ seen. seen.taken) handle (run w cs s).1
          + amount handle (held (run w cs s).0.watcher)
        ≡ amount handle (held s.watcher) + times (λ seen. seen.stored) handle (run w cs s).1
  unfolding run
  handles-run [] s handle v = omega arith
  handles-run (c ∷ cs) s handle v =
      let first = step-Sound handle c s v in
      omega (arith, first.1.1.0.1, handles-run cs (step w c s).0 handle first.0)

  answers_run :
      (cs : List (Call w)) (s : Inner w) (seq : ℕ)
      → IsValid w s
      → s.current.seq < s.next_seq
      → s.next_seq + length cs < 2 ^ 64
      → let s' = (run w cs s).0 in
        times (λ seen. seen.answered) seq (run w cs s).1
          + stage seq s.next_seq s.current.seq (is_settled s.current)
        ≤ stage seq s'.next_seq s'.current.seq (is_settled s'.current)
  unfolding run
  answers_run [] s seq v h b = omega arith
  answers_run (c ∷ cs) s seq v h b =
      let first = step-Sound seq c s v in
      let marks = first.1.1.1 h (omega arith) in
      omega (
        arith,
        marks.1.1.0,
        answers_run cs (step w c s).0 seq first.0 marks.0 (omega (arith, b, marks.1.0)),
      )

  continues_run :
      (cs : List (Call w)) (s : Inner w) (seq : ℕ)
      → IsValid w s
      → s.current.seq < s.next_seq
      → s.next_seq + length cs < 2 ^ 64
      → let s' = (run w cs s).0 in
        times (λ seen. seen.continued) seq (run w cs s).1
          + stage seq s.next_seq s.current.seq s.current.continue_sent
        ≤ stage seq s'.next_seq s'.current.seq s'.current.continue_sent
  unfolding run
  continues_run [] s seq v h b = omega arith
  continues_run (c ∷ cs) s seq v h b =
      let first = step-Sound seq c s v in
      let marks = first.1.1.1 h (omega arith) in
      omega (
        arith,
        marks.1.1.1,
        continues_run cs (step w c s).0 seq first.0 marks.0 (omega (arith, b, marks.1.0)),
      )

  -- Over any fewer than 2^64 - 1 calls on a new server connection, in any order, each request is
  -- answered at most once, by a response head or by a detach, and its 100 Continue is claimed at
  -- most once.
  pub once-run :
      (cs : List (Call w)) (codec : Codec w) (transport : ℕ) (keep_alive half_close : Bool)
      (seq : ℕ)
      → length cs < 2 ^ 64 - 1
      → let s = new w codec transport keep_alive half_close in
        (times (λ seen. seen.answered) seq (run w cs s).1 ≤ 1)
        × (times (λ seen. seen.continued) seq (run w cs s).1 ≤ 1)
  unfolding new
  once-run cs codec transport keep_alive half_close seq b =
      let s = new w codec transport keep_alive half_close in
      let v = new-IsValid codec transport keep_alive half_close in
      let s' = (run w cs s).0 in
      (
        omega (
          arith,
          answers_run cs s seq v (omega arith) (omega (arith, b)),
          stage-bound seq s'.next_seq s'.current.seq (is_settled s'.current),
        ),
        omega (
          arith,
          continues_run cs s seq v (omega arith) (omega (arith, b)),
          stage-bound seq s'.next_seq s'.current.seq s'.current.continue_sent,
        ),
      )
