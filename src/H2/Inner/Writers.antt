-- ===== src/H2/Inner/Writers.antt =====
-- src/h2/conn.rs, the background writers of request bodies: `writer_start`, `writer_end` and
-- `release_writers`.
pub mod Valid
use httpunk.Prelude.{ℕ, ◌+◌, Bool, true, false, ◌&&◌, ◌||◌, ◌==◌, if◌then◌else◌, is_some}
use httpunk.H2.Vendor.{Vendor}
use httpunk.H2.Inner.{Inner, usize_sub}

module _ (v : Vendor) where
  pub writer_start : Inner v → Inner v × Bool
  writer_start s =
      if is_some s.error || s.draining
      then (s, false)
      else (record s { writers = s.writers + 1 }, true)

  pub writer_end : Inner v → Inner v × Bool
  writer_end s =
      let left = usize_sub s.writers 1 in (record s { writers = left }, (left == 0) && s.draining)

  pub release_writers : Inner v → Inner v × Bool
  release_writers s = (record s { draining = true }, s.writers == 0)
