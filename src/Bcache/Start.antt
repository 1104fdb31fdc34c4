-- ===== src/Bcache/Start.antt =====
-- The buffers of kernel/bio.c after `binit`.
use mit_operating_system_eng.Base.{
  ℕ, zero, suc, ◌≡◌, refl, inr, inl, false, List, [], ◌==◌, ◌&&◌, All, Bool-cases,
}
use mit_operating_system_eng.Bcache.{buffers, binit}
use mit_operating_system_eng.Bcache.View.{clash, Unique, Clean, IsCache, lookup}

module _ (disk : ℕ → ℕ → List ℕ) where
  buffers-Unique : (k : ℕ) → Unique (buffers k)
  unfolding buffers
  buffers-Unique zero = tt
  buffers-Unique (suc k) = (apart k, buffers-Unique k)
    where
      apart :
          (k : ℕ)
          → All
              (λ c.
                clash
                  (record { id = 0; valid = false; dev = 0; blockno = 0; refcnt = 0; bytes = [] })
                  c
                ≡ false)
              (buffers k)
      apart zero = tt
      apart (suc k) = (refl, apart k)

  buffers-Clean : (k : ℕ) → All (Clean disk) (buffers k)
  unfolding buffers
  buffers-Clean zero = tt
  buffers-Clean (suc k) = (inr (inl refl), buffers-Clean k)

  lookup-buffers : (k d n : ℕ) → lookup disk (buffers k) d n ≡ disk d n
  unfolding buffers lookup
  lookup-buffers zero d n = refl
  lookup-buffers (suc k) d n = elim (Bool-cases (0 == d && 0 == n)) [
    | inl hit ↦ rw hit refl
    | inr miss ↦ rw miss (lookup-buffers k d n)
  ]

  -- After `binit` the cache is well formed and shows the disk.
  pub binit_lem : IsCache disk binit × ((d n : ℕ) → lookup disk binit d n ≡ disk d n)
  unfolding binit
  binit_lem = (
    record { unique = buffers-Unique 30; clean = buffers-Clean 30 },
    λ d n. lookup-buffers 30 d n,
  )
