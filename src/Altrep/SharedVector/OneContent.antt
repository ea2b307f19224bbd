-- ===== src/Altrep/SharedVector/OneContent.antt =====
-- All vectors on one shared memory (src/altrep.cpp, src/numericAltrepOperations.cpp), whatever process
-- holds them, against the abstract view: one content, which every write replaces.
use shared_object.Prelude.{
  ℕ, ◌*◌, ◌^◌, ◌<◌, String, ◌≡◌, refl, sym, ◌∙◌, Bool, List, [], ◌∷◌, length, ok,
}
use shared_object.Os.{Os, Posix, Sharing}
use shared_object.SharedMemory.{Process}
use shared_object.SharedMemory.Keys.{get_key}
use shared_object.Altrep.SharedVector.{SharedVector, dataptr}
use shared_object.Altrep.SharedVector.Operations.{unshare}
use shared_object.Altrep.SharedVector.Contents.{IsNew}
use shared_object.Altrep.SharedVector.RoundTrip.{moved}
use shared_object.Altrep.SharedVector.Sharing.{write_data, write-unshare}

module _ (os : Os) where
  -- Who writes what, in the order in which it happens.
  abbrev pub Writes : Type 0
  Writes = List (SharedVector os × List ℕ)

  -- The writes, one after the other, in memory
  unfoldable pub perform : Writes → Process os → Process os
  perform [] p = p
  perform ((u, bytes) ∷ rest) p = perform rest (write_data os u bytes p)

  -- The same writes of the one content
  unfoldable pub content : List ℕ → Writes → List ℕ
  content old [] = old
  content old ((u, bytes) ∷ rest) = content bytes rest

  module _ (px : Posix os) (sh : Sharing os) (type count size : ℕ) (cow : Bool) (tag : String) where
    -- Each writer is a vector on the memory of `tag`, and writes all of it.
    pub data AreWrites (w : os.World) : Writes → Type 0 where
      done : AreWrites w []
      next :
          {u : SharedVector os} {bytes : List ℕ} {rest : Writes}
          → IsNew os px sh type count size cow u w
          → u.tag ≡ tag
          → length bytes ≡ size * count
          → AreWrites w rest
          → AreWrites w ((u, bytes) ∷ rest)

    still_new :
        (u v : SharedVector os) (bytes : List ℕ) (w : os.World)
        → IsNew os px sh type count size cow v w
        → IsNew os px sh type count size cow v (os.write_memory u.pointer bytes w)
    still_new u v bytes w new =
        moved os px sh type count size cow v w (os.write_memory u.pointer bytes w)
          (sh.backs-write (get_key os v.tag) v.pointer u.pointer _ bytes w) new

    still_writes :
        (u : SharedVector os) (bytes : List ℕ) (w : os.World) (writes : Writes)
        → AreWrites w writes
        → AreWrites (os.write_memory u.pointer bytes w) writes
    still_writes u bytes w [] done = done
    still_writes u bytes w ((v, bytes') ∷ rest) (next new same long more) =
        next (still_new u v bytes w new) same long (still_writes u bytes w rest more)

    -- Vectors of one type and length, of fewer than 2^64 bytes, are on the memory of one id and
    -- mapped. Where one of them shows `old` and each of a sequence of writes is of all bytes
    -- through any of them, it shows afterwards the one content that the same writes leave in place
    -- of `old`.
    pub perform-refines-content :
        (writes : Writes) (old : List ℕ) (p : Process os) (v : SharedVector os)
        → size * count < 2 ^ 64
        → AreWrites p.world writes
        → IsNew os px sh type count size cow v p.world
        → v.tag ≡ tag
        → (unshare os v p).0 ≡ ok (record { data_type = type; bytes = old })
        → (unshare os v (perform writes p)).0
          ≡ ok (record { data_type = type; bytes = content old writes })
    unfolding perform content write_data dataptr
    perform-refines-content [] old p v bound done new at shows = shows
    perform-refines-content ((u, bytes) ∷ rest) old p v bound (next hu same long more) new at
          shows =
        perform-refines-content rest bytes (write_data os u bytes p) v bound
          (still_writes u bytes p.world rest more) (still_new u v bytes p.world new) at
          (write-unshare os px sh type count size cow u v p.world bytes (write_data os u bytes p) hu
            new (same ∙ sym at) bound long refl)
