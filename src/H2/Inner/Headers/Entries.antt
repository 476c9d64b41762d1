-- ===== src/H2/Inner/Headers/Entries.antt =====
-- What HEADERS do to a stored entry keeps `Inner` well formed.
use httpunk.Prelude.{ℕ, ◌≡◌, refl, Bool, true, some, arith, Option-cases, Bool-cases, inl, inr}
use httpunk.Prelude.Map.{lookup, lookup-insert_self}
use httpunk.H2.ContentLength
use httpunk.H2.Vendor.{Vendor, VendorLaws, library}
use httpunk.H2.Result.{Keeps}
use httpunk.H2.Inner.{StreamEntry, Inner, HeadersFrame}
use httpunk.H2.Inner.Invariant.{IsValid, update-StoreValid}
use httpunk.H2.Inner.Store.Valid.{close_stream-IsValid}
use httpunk.H2.Inner.Reset.Valid.{restate-IsValid, expire-IsValid}
use httpunk.H2.Inner.Headers.{
  recv_open_entry, recv_close_entry, apply_content_length, reset_rejected, reject_oversize_request,
}

module _ (v : Vendor) (l : VendorLaws v) where
  pub recv_open_entry-Keeps :
      (sid : ℕ) (eos informational : Bool)
      → Keeps (IsValid v) (recv_open_entry v sid eos informational)
  unfolding recv_open_entry
  recv_open_entry-Keeps sid eos informational s h = elim (Option-cases (lookup sid s.streams)) [
    | inl e ↦ rw (e, recv_open_entry) h
    | inr (e, p) ↦
        rw (p, recv_open_entry)
          (restate-IsValid v l s sid e
            (record e { state = (v.recv_open eos informational e.state).0 }) h p
            (λ f. l.recv_open_stays eos informational e.state (ground (arith, h.entries sid))) refl)
  ]

  pub recv_close_entry-Keeps : (sid : ℕ) → Keeps (IsValid v) (recv_close_entry v sid)
  unfolding recv_close_entry
  recv_close_entry-Keeps sid s h = elim (Option-cases (lookup sid s.streams)) [
    | inl e ↦ rw (e, recv_close_entry) h
    | inr (e, p) ↦
        rw (p, recv_close_entry)
          (restate-IsValid v l s sid e (record e { state = (v.recv_close e.state).0 }) h p
            (λ f. l.recv_close_stays e.state (ground (arith, h.entries sid))) refl)
  ]

  pub apply_content_length-Keeps :
      (sid : ℕ) (f : HeadersFrame) → Keeps (IsValid v) (apply_content_length v sid f)
  unfolding apply_content_length
  apply_content_length-Keeps sid f s h = elim (Option-cases (lookup sid s.streams)) [
    | inl e ↦ rw (e, apply_content_length) h
    | inr (e, p) ↦
        rw (p, apply_content_length)
          (elim (Bool-cases f.content_length_invalid) [
            | inl bad ↦ rw bad h
            | inr fine ↦ rw fine (elim (Bool-cases (ContentLength.is_head e.content_length)) [
              | inl head ↦ rw head h
              | inr body ↦ rw body (elim (Option-cases f.content_length) [
                | inl undeclared ↦ rw undeclared h
                | inr (cl, declared) ↦ rw declared (
                    update-StoreValid v h sid e _ _ _ _ _ p refl (omega arith)
                      (ground (arith, h.entries sid)) (λ j n. omega arith))
              ])
            ])
          ])
  ]

  reset_rejected-IsValid :
      (s : Inner v) (now sid : ℕ) (e : StreamEntry v)
      → IsValid v s
      → lookup sid s.streams ≡ some e
      → IsValid v (reset_rejected v now sid e s)
  unfolding reset_rejected
  reset_rejected-IsValid s now sid e h p = elim (Bool-cases (v.is_closed e.state)) [
    | inl over ↦ rw over h
    | inr live ↦ rw live (
        expire-IsValid v l _ now sid
          (restate-IsValid v l s sid e _ h p (λ f. l.set_reset_closed sid _ library e.state) refl))
  ]

  pub reject_oversize_request-Keeps :
      (now sid : ℕ) → Keeps (IsValid v) (reject_oversize_request v now sid)
  unfolding reject_oversize_request
  reject_oversize_request-Keeps now sid s h = elim (Option-cases (lookup sid s.streams)) [
    | inl e ↦ rw (e, reject_oversize_request) h
    | inr (e, p) ↦
        let st = (v.send_open true e.state).0 in
        let e' = record e { state = st } in
        let opened =
          restate-IsValid v l s sid e e' h p
            (λ f. l.send_open_stays true e.state (ground (arith, h.entries sid))) refl in
        rw (p, reject_oversize_request)
          (elim (Option-cases (v.send_open true e.state).1) [
            | inl sent ↦ rw sent (
                close_stream-IsValid v _ sid (
                  reset_rejected-IsValid _ now sid e' opened (lookup-insert_self sid e' s.streams)))
            | inr (x, refused) ↦ rw refused opened
          ])
  ]
