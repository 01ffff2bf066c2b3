-- ===== src/Content/Cache/Shared/Answers.antt =====
-- internal/content/cache.go: every answer is the artifact's content, whatever the order of events.
use libfossil.Base.{
  ℕ, ◌≡◌, refl, Option, none, some, List, [], ◌∷◌, Bytes, get_elem?, All, ok, err, panicked, stuck,
}
use libfossil.Blob.{Db, Tools}
use libfossil.Blob.Tables.{IsValid}
use libfossil.Content.{expand}
use libfossil.Content.Stored.{Call, call, calls, calls-IsValid, expand-calls}
use libfossil.Content.Cache.{Cache, new_cache, expand_begin, fill, clear}
use libfossil.Content.Cache.Bounds.{
  IsBounded, expand_begin-IsBounded, expand_end-IsBounded, invalidate-IsBounded, clear-IsBounded,
  new_cache-IsBounded,
}
use libfossil.Content.Cache.Shared.{
  Goroutine, expanding, expanded, System, Event, begins, expands, ends, invalidates, clears, stores,
  Answer, begun, remove_at, end_of, step, run,
}
use libfossil.Content.Cache.Shared.Items.{
  IsRight, HasRightResult, IsCoherent, positive_rid, expand_begin-IsRight, expand_begin-answer,
  expand_end-IsRight, invalidate-IsRight, expand_at-HasRightResult, remove_at-HasRightResult,
  get-HasRightResult,
}

module _ (t : Tools) (db : Db) (v : IsValid db) (c : Call) where
  -- Stores change no content.
  call-IsRight : (e : ℕ × Bytes) → IsRight t db e → IsRight t (call t db c) e
  unfolding calls
  call-IsRight (rid, text) h =
      expand-calls t db (c ∷ []) rid text v (positive_rid t db rid text h) h

  call-HasRightResult : (g : Goroutine) → HasRightResult t db g → HasRightResult t (call t db c) g
  call-HasRightResult (expanding rid) h = tt
  call-HasRightResult (expanded rid (ok text)) h = call-IsRight (rid, text) h
  call-HasRightResult (expanded rid (err _)) h = tt
  call-HasRightResult (expanded rid panicked) h = tt
  call-HasRightResult (expanded rid stuck) h = tt

All-mono {ℓ} :
    {A : Type ℓ} (P Q : A → Type 0) (xs : List A) → ((x : A) → P x → Q x) → All P xs → All Q xs
All-mono P Q [] k a = tt
All-mono P Q (x ∷ xs) k (p, a) = (k x p, All-mono P Q xs k a)

-- The answer, if it is a content, is the artifact's.
abbrev pub AnswersRight : Tools → Db → Option Answer → Type 0
AnswersRight t db none = Unit
AnswersRight t db (some (rid, ok text)) = expand t db rid ≡ ok text
AnswersRight t db (some (rid, _)) = Unit

abbrev pub StepsRight : Tools → System × Option Answer → Type 0
StepsRight t (s, a) = IsCoherent t s × AnswersRight t s.db a

module _ (t : Tools) (s : System) (k : IsCoherent t s) where
  begun-StepsRight :
      (rid : ℕ) (p : Cache × Option Bytes)
      → IsBounded p.0
      → All (IsRight t s.db) p.0.order
      → ((text : Bytes) → p.1 ≡ some text → expand t s.db rid ≡ ok text)
      → StepsRight t (begun s rid p)
  unfolding begun
  begun-StepsRight rid (c, some text) b r h =
      (record { tables = k.tables; bounds = b; cached = r; results = k.results }, h text refl)
  begun-StepsRight rid (c, none) b r h =
      (record { tables = k.tables; bounds = b; cached = r; results = (tt, k.results) }, tt)

  failed : (n : ℕ) → IsCoherent t (record s { running = remove_at s.running n })
  failed n = record {
    tables = k.tables;
    bounds = k.bounds;
    cached = k.cached;
    results = remove_at-HasRightResult t s.db s.running n k.results;
  }

  end_of-StepsRight :
      (n : ℕ) (o : Option Goroutine) → get_elem? s.running n ≡ o → StepsRight t (end_of s n o)
  unfolding end_of fill
  end_of-StepsRight n none e = (k, tt)
  end_of-StepsRight n (some (expanding rid)) e = (k, tt)
  end_of-StepsRight n (some (expanded rid (ok text))) e =
      let h = get-HasRightResult t s.db s.running n (expanded rid (ok text)) k.results e in
      (
        record {
          tables = k.tables;
          bounds = expand_end-IsBounded s.cache k.bounds rid text;
          cached = expand_end-IsRight t s.db s.cache k.cached rid text k.bounds h;
          results = remove_at-HasRightResult t s.db s.running n k.results;
        },
        h,
      )
  end_of-StepsRight n (some (expanded rid (err _))) e = (failed n, tt)
  end_of-StepsRight n (some (expanded rid panicked)) e = (failed n, tt)
  end_of-StepsRight n (some (expanded rid stuck)) e = (failed n, tt)

  -- Every event keeps the system coherent and gives a right answer, if it gives one.
  step-StepsRight : (e : Event) → StepsRight t (step t s e)
  unfolding step calls clear
  step-StepsRight (begins rid) =
      begun-StepsRight rid (expand_begin s.cache rid) (expand_begin-IsBounded s.cache k.bounds rid)
        (expand_begin-IsRight t s.db s.cache k.cached rid)
        (expand_begin-answer t s.db s.cache k.cached rid)
  step-StepsRight (expands n) = (
    record {
      tables = k.tables;
      bounds = k.bounds;
      cached = k.cached;
      results = expand_at-HasRightResult t s.db s.running n k.results;
    },
    tt,
  )
  step-StepsRight (ends n) = end_of-StepsRight n (get_elem? s.running n) refl
  step-StepsRight (invalidates rid) = (
    record {
      tables = k.tables;
      bounds = invalidate-IsBounded s.cache k.bounds rid;
      cached = invalidate-IsRight t s.db s.cache k.cached rid;
      results = k.results;
    },
    tt,
  )
  step-StepsRight clears = (
    record {
      tables = k.tables;
      bounds = clear-IsBounded s.cache;
      cached = tt;
      results = k.results;
    },
    tt,
  )
  step-StepsRight (stores c) = (
    record {
      tables = calls-IsValid t s.db (c ∷ []) k.tables;
      bounds = k.bounds;
      cached = All-mono _ _ s.cache.order (call-IsRight t s.db k.tables c) k.cached;
      results = All-mono _ _ s.running (call-HasRightResult t s.db k.tables c) k.results;
    },
    tt,
  )

run-IsCoherent :
    (t : Tools) (s : System) (es : List Event) → IsCoherent t s → IsCoherent t (run t s es)
unfolding run
run-IsCoherent t s [] k = k
run-IsCoherent t s (e ∷ es) k = run-IsCoherent t (step t s e).0 es (step-StepsRight t s k e).0

-- A system at its start: valid tables, an empty cache, no call under way.
abbrev pub start : Cache → Db → System
start c db = record { cache = c; db = db; running = [] }

start-IsCoherent :
    (t : Tools) (max_bytes : ℕ) (c : Cache) (db : Db)
    → IsValid db
    → new_cache max_bytes ≡ ok c
    → IsCoherent t (start c db)
start-IsCoherent t max_bytes c db v e =
    let (b, empty) = new_cache-IsBounded max_bytes c e in
    record { tables = v; bounds = b; cached = rw empty tt; results = tt }

-- Goroutines that share a cache get right answers: after any order of critical sections, expansions,
-- evictions and stores, from a new cache on valid tables, a content that `Cache.Expand` returns is what
-- `Expand` gives for this rid on the tables as they are then.
pub run-answers :
    (t : Tools) (max_bytes : ℕ) (c : Cache) (db : Db) (es : List Event) (e : Event) (rid : ℕ)
    (text : Bytes)
    → IsValid db
    → new_cache max_bytes ≡ ok c
    → let s = run t (start c db) es in
      (step t s e).1 ≡ some (rid, ok text) → expand t (step t s e).0.db rid ≡ ok text
run-answers t max_bytes c db es e rid text v n a =
    let s = run t (start c db) es in
    let (k, r) =
      step-StepsRight t s (run-IsCoherent t (start c db) es (start-IsCoherent t max_bytes c db v n))
        e in
    rw a at r

-- In the same runs the size that the cache counts is the number of bytes it holds, it is within
-- the bound, and no rid is held twice.
pub run-IsBounded :
    (t : Tools) (max_bytes : ℕ) (c : Cache) (db : Db) (es : List Event)
    → IsValid db
    → new_cache max_bytes ≡ ok c
    → IsBounded (run t (start c db) es).cache
run-IsBounded t max_bytes c db es v n =
    (run-IsCoherent t (start c db) es (start-IsCoherent t max_bytes c db v n)).bounds
