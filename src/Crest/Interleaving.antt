-- ===== src/Crest/Interleaving.antt =====
-- src/quantum_crest.rs, the mailboxes: any number of threads publish and take at once, and their
-- atomic accesses interleave in any order.
use slope.Base.{ℕ, ◌≡◌, some, List, [], ◌∷◌, ◌++◌, ◌==◌, if◌then◌else◌}
use slope.Crest.Mailbox.{free, ready, Mailbox, claim, enter, write, store}

-- Where a thread is: outside, in `publish` before or after the write, or in `take` before or after
-- the read.
pub data Thread (T : Type 0) : Type 0 where
  idle : Thread T
  claimed : T → Thread T
  written : T → Thread T
  entered : Thread T
  holding : T → Thread T

-- The cell, the threads, and the values published and taken so far, in order.
pub record World (T : Type 0) : Type 0 where
  pub cell : Mailbox T
  pub threads : ℕ → Thread T
  pub published : List T
  pub taken : List T

unfoldable pub at : {T : Type 0} → ℕ → Thread T → (ℕ → Thread T) → ℕ → Thread T
at t local threads u = if t == u then local else threads u

-- One atomic access of one thread.
pub data Step {T : Type 0} : World T → World T → Type 0 where
  claims :
      (w : World T) (t : ℕ) (v : T) (m : Mailbox T)
      → w.threads t ≡ idle
      → claim w.cell ≡ some m
      → Step w (record w { cell = m; threads = at t (claimed v) w.threads })
  writes :
      (w : World T) (t : ℕ) (v : T)
      → w.threads t ≡ claimed v
      → Step w (record w { cell = write v w.cell; threads = at t (written v) w.threads })
  publishes :
      (w : World T) (t : ℕ) (v : T)
      → w.threads t ≡ written v
      → Step w (record w {
        cell = store ready w.cell;
        threads = at t idle w.threads;
        published = w.published ++ v ∷ [];
      })
  enters :
      (w : World T) (t : ℕ) (m : Mailbox T)
      → w.threads t ≡ idle
      → enter w.cell ≡ some m
      → Step w (record w { cell = m; threads = at t entered w.threads })
  reads :
      (w : World T) (t : ℕ)
      → w.threads t ≡ entered
      → Step w (record w { threads = at t (holding w.cell.value) w.threads })
  frees :
      (w : World T) (t : ℕ) (v : T)
      → w.threads t ≡ holding v
      → Step w (record w {
        cell = store free w.cell;
        threads = at t idle w.threads;
        taken = w.taken ++ v ∷ [];
      })
  -- An exchange that fails leaves everything as it was.
  fails : (w : World T) → Step w w

pub data Steps {T : Type 0} : World T → World T → Type 0 where
  done : (w : World T) → Steps w w
  next : {w x y : World T} → Steps w x → Step x y → Steps w y

abbrev pub start : {T : Type 0} → Mailbox T → World T
start m = record { cell = m; threads = λ t. idle; published = []; taken = [] }
