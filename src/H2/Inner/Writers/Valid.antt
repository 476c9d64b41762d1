-- ===== src/H2/Inner/Writers/Valid.antt =====
-- The writers' counter leaves the stream store alone.
use httpunk.Prelude.{arith, refl}
use httpunk.H2.Vendor.{Vendor}
use httpunk.H2.Inner.{Inner}
use httpunk.H2.Inner.Invariant.{SameStore}
use httpunk.H2.Inner.Writers.{writer_start, writer_end, release_writers}

module _ (v : Vendor) where
  pub writer_start-SameStore : (s : Inner v) → SameStore v s (writer_start v s).0
  unfolding writer_start
  writer_start-SameStore s = ground arith

  pub writer_end-SameStore : (s : Inner v) → SameStore v s (writer_end v s).0
  unfolding writer_end
  writer_end-SameStore s = (refl, refl, refl, refl, refl)

  pub release_writers-SameStore : (s : Inner v) → SameStore v s (release_writers v s).0
  unfolding release_writers
  release_writers-SameStore s = (refl, refl, refl, refl, refl)
