-- ===== src/Lock/Exclusion.antt =====
-- Requests on several goroutines that take and release the lock in any order.
use beegfs_csi_driver.Prelude.{
  ℕ, String, ◌≡◌, refl, sym, ap, ◌∙◌, subst, true, false, not, ◌||◌, List, [], ◌∷◌, ◌++◌, arith,
  ◌==◌, eq_iff, member, member-append,
}
use beegfs_csi_driver.Lock.{
  StringLock, new_string_lock, obtain_lock_on_string, release_lock_on_string, without,
}
use beegfs_csi_driver.Lock.Laws.{without_absent, obtain_lock_on_string_lem}

-- The lock, and the goroutines between their obtaining and their releasing, with the volume of each.
pub record Traffic : Type 0 where
  pub lock : StringLock
  pub running : List (ℕ × String)

abbrev pub start : Traffic
start = record { lock = new_string_lock; running = [] }

abbrev pub volumes : List (ℕ × String) → List String
volumes [] = []
volumes ((g, id) ∷ rest) = id ∷ volumes rest

-- Any goroutine may ask for any volume, and any that runs may finish.
pub data Step (t u : Traffic) : Type 0 where
  begin :
      (g : ℕ) (id : String)
      → (obtain_lock_on_string id t.lock).0 ≡ true
      → u ≡ record { lock = (obtain_lock_on_string id t.lock).1; running = (g, id) ∷ t.running }
      → Step t u
  refuse :
      (g : ℕ) (id : String)
      → (obtain_lock_on_string id t.lock).0 ≡ false
      → u ≡ record t { lock = (obtain_lock_on_string id t.lock).1 }
      → Step t u
  finish :
      (g : ℕ) (id : String) (before behind : List (ℕ × String))
      → t.running ≡ before ++ (g, id) ∷ behind
      → u ≡ record { lock = release_lock_on_string id t.lock; running = before ++ behind }
      → Step t u

pub data Reach : Traffic → Type 0 where
  here : Reach start
  next : {t u : Traffic} → Reach t → Step t u → Reach u

abbrev pub Distinct : List String → Type 0
Distinct [] = Unit
Distinct (x ∷ xs) = (member x xs ≡ false) × Distinct xs

-- The lock holds the volumes of the running goroutines, and those are distinct.
pub record IsExclusive (t : Traffic) : Type 0 where
  pub held : t.lock.items ≡ volumes t.running
  pub distinct : Distinct (volumes t.running)

volumes-append : (xs ys : List (ℕ × String)) → volumes (xs ++ ys) ≡ volumes xs ++ volumes ys
volumes-append [] ys = refl
volumes-append ((g, id) ∷ xs) ys = ground (arith, volumes-append xs ys)

-- A text that is not in a list with `id` in the middle.
fresh_parts :
    (x id : String) (xs ys : List String)
    → member x (xs ++ id ∷ ys) ≡ false
    → ((x == id) ≡ false) × (member x (xs ++ ys) ≡ false)
fresh_parts x id xs ys h =
    let h' : (member x xs || member x (id ∷ ys)) ≡ false = rw (member-append x xs (id ∷ ys)) at h in
    rw (member-append x xs ys) (unfold member in ground arith)

-- Removing one of distinct volumes leaves the others, and they are distinct.
without_one :
    (id : String) (xs ys : List String)
    → Distinct (xs ++ id ∷ ys)
    → (without id (xs ++ id ∷ ys) ≡ xs ++ ys) × Distinct (xs ++ ys)
unfolding without
without_one id [] ys (fresh, d) = (ground (arith, eq_iff id id, without_absent id ys fresh), d)
without_one id (x ∷ xs) ys (fresh, d) =
    let (gone, rest) = without_one id xs ys d in
    let (other, absent) = fresh_parts x id xs ys fresh in
    (ground (arith, gone, eq_iff id x, eq_iff x id), (absent, rest))

begin-IsExclusive :
    (t : Traffic) (g : ℕ) (id : String)
    → IsExclusive t
    → (obtain_lock_on_string id t.lock).0 ≡ true
    → IsExclusive
        (record { lock = (obtain_lock_on_string id t.lock).1; running = (g, id) ∷ t.running })
unfolding obtain_lock_on_string
begin-IsExclusive t g id e got = ground (arith, e.held)

refuse-IsExclusive :
    (t : Traffic) (id : String)
    → IsExclusive t
    → (obtain_lock_on_string id t.lock).0 ≡ false
    → IsExclusive (record t { lock = (obtain_lock_on_string id t.lock).1 })
unfolding obtain_lock_on_string
refuse-IsExclusive t id e got = ground (arith, e.held, e.distinct)

finish-IsExclusive :
    (t : Traffic) (g : ℕ) (id : String) (before behind : List (ℕ × String))
    → IsExclusive t
    → t.running ≡ before ++ (g, id) ∷ behind
    → IsExclusive (record { lock = release_lock_on_string id t.lock; running = before ++ behind })
unfolding release_lock_on_string
finish-IsExclusive t g id before behind e split =
    let named : volumes t.running ≡ volumes before ++ id ∷ volumes behind =
      ap volumes split ∙ volumes-append before ((g, id) ∷ behind) in
    let (gone, rest) =
      without_one id (volumes before) (volumes behind) (subst Distinct named e.distinct) in
    record {
      held = ap (without id) (e.held ∙ named) ∙ (gone ∙ sym (volumes-append before behind));
      distinct = subst Distinct (sym (volumes-append before behind)) rest;
    }

Step-IsExclusive : {t u : Traffic} → Step t u → IsExclusive t → IsExclusive u
Step-IsExclusive {t} (begin g id got same) e = rw same (begin-IsExclusive t g id e got)
Step-IsExclusive {t} (refuse g id got same) e = rw same (refuse-IsExclusive t id e got)
Step-IsExclusive {t} (finish g id before behind split same) e =
    rw same (finish-IsExclusive t g id before behind e split)

Reach-IsExclusive : {t : Traffic} → Reach t → IsExclusive t
Reach-IsExclusive here = record { held = refl; distinct = tt }
Reach-IsExclusive (next r st) = Step-IsExclusive st (Reach-IsExclusive r)

-- In every state that goroutines can reach by taking and releasing the lock in any order, the
-- volumes of the running requests are distinct, and a request for a volume obtains the lock exactly
-- if no request for that volume runs.
pub Reach-exclusion :
    {t : Traffic}
    → Reach t
    → Distinct (volumes t.running)
      × ((id : String) → (obtain_lock_on_string id t.lock).0 ≡ not (member id (volumes t.running)))
Reach-exclusion {t} r =
    let e = Reach-IsExclusive r in
    (
      e.distinct,
      λ id. (obtain_lock_on_string_lem id t.lock).0 ∙ ap (λ xs. not (member id xs)) e.held,
    )
