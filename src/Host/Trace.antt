-- ===== src/Host/Trace.antt =====
-- Reasoning about the calls that an action on the environment makes, and about an action that goes on
-- only after a check has succeeded.
use beegfs_csi_driver.Prelude.{◌≡◌, refl, Bool, true, false, ◌∷◌}
use beegfs_csi_driver.Prelude.Result.{Result, ok, err, Exec, pure, fail, lift, continue, ◌>>=◌}
use beegfs_csi_driver.Host.{History, Call}

-- `t` is `s` and then calls that satisfy `P`.
pub data Since (P : Call → Type 0) (s : History) : History → Type 0 where
  here : Since P s s
  later : {t : History} → (c : Call) → P c → Since P s t → Since P s (c ∷ t)

pub Since-trans : {P : Call → Type 0} {s t u : History} → Since P s t → Since P t u → Since P s u
Since-trans p here = p
Since-trans p (later c pc q) = later c pc (Since-trans p q)

pub Since-weaken :
    {P Q : Call → Type 0} {s t : History} → ((c : Call) → P c → Q c) → Since P s t → Since Q s t
Since-weaken f here = here
Since-weaken f (later c pc p) = later c (f c pc) (Since-weaken f p)

-- The same for an outcome with a history.
abbrev pub SinceEnd : {E A : Type 0} → (Call → Type 0) → History → Result E A × History → Type 0
SinceEnd P s out = Since P s out.1

-- All calls that the action makes satisfy `P`.
pub record Makes {E A : Type 0} (P : Call → Type 0) (m : Exec History E A) : Type 0 where
  pub since : (s : History) → Since P s (m s).1

module _ {E A : Type 0} (P : Call → Type 0) where
  pub pure-Makes : (a : A) → Makes {E = E} P (pure a)
  unfolding pure
  pure-Makes a = record { since = λ s. here }

  pub fail-Makes : (e : E) → Makes {A = A} P (fail e)
  unfolding fail
  fail-Makes e = record { since = λ s. here }

  pub lift-Makes : (r : Result E A) → Makes P (lift r)
  unfolding lift
  lift-Makes r = record { since = λ s. here }

-- An action of one call.
pub call-Makes :
    {E A : Type 0} (P : Call → Type 0) (reply : History → Result E A) (c : Call)
    → P c
    → Makes P (λ s. (reply s, c ∷ s))
call-Makes P reply c pc = record { since = λ s. later c pc here }

pub bind-Makes :
    {E A B : Type 0} (P : Call → Type 0) (m : Exec History E A) (f : A → Exec History E B)
    → Makes P m
    → ((a : A) → Makes P (f a))
    → Makes P (m >>= f)
unfolding ◌>>=◌
bind-Makes {E} {A} P m f pm pf = record { since = λ s. after s (m s).0 (m s).1 (pm.since s) }
  where
    after :
        (s : History) (r : Result E A) (t : History) → Since P s t → Since P s (continue r f t).1
    after s (ok a) t p = Since-trans p ((pf a).since t)
    after s (err e) t p = p

-- An outcome of an action that makes calls in `P`, and goes on with calls in `Q` only if the check has
-- succeeded. Where it does not go on, it fails.
pub data Guarded {E A : Type 0} (P Q : Call → Type 0) (check : Exec History E (Unit {0}))
    (s : History) : Result E A × History → Type 0 where
  refused : (e : E) (t : History) → Since P s t → Guarded P Q check s (err e, t)
  passed :
      (u : History) (r : Result E A) (t : History)
      → Since P s u
      → (check u).0 ≡ ok tt
      → Since P u (check u).1
      → Since Q (check u).1 t
      → Guarded P Q check s (r, t)

pub check-Guarded :
    {E B : Type 0} (P Q : Call → Type 0) (check : Exec History E (Unit {0}))
    (k : Unit {0} → Exec History E B)
    → Makes P check
    → Makes Q (k tt)
    → (s : History) → Guarded P Q check s ((check >>= k) s)
unfolding ◌>>=◌
check-Guarded {E} P Q check k pc qk s = after (check s).0 refl
  where
    after :
        (r : Result E (Unit {0})) → (check s).0 ≡ r → Guarded P Q check s (continue r k (check s).1)
    after (ok tt) e = passed s _ _ here e (pc.since s) (qk.since (check s).1)
    after (err x) e = refused x _ (pc.since s)

earlier :
    {E A : Type 0} {P Q : Call → Type 0} {check : Exec History E (Unit {0})} {s t : History}
    {out : Result E A × History}
    → Since P s t
    → Guarded P Q check t out
    → Guarded P Q check s out
earlier p (refused e u q) = refused e u (Since-trans p q)
earlier p (passed u r t q ok_check pc qk) = passed u r t (Since-trans p q) ok_check pc qk

pub before-Guarded :
    {E A B : Type 0} (P Q : Call → Type 0) (check : Exec History E (Unit {0}))
    (m : Exec History E A) (f : A → Exec History E B)
    → Makes P m
    → ((a : A) (s : History) → Guarded P Q check s (f a s))
    → (s : History) → Guarded P Q check s ((m >>= f) s)
unfolding ◌>>=◌
before-Guarded {E} {A} P Q check m f pm g s = after (m s).0 (m s).1 (pm.since s)
  where
    after : (r : Result E A) (t : History) → Since P s t → Guarded P Q check s (continue r f t)
    after (ok a) t p = earlier p (g a t)
    after (err e) t p = refused e t p

pub bool-Makes :
    {E A : Type 0} (P : Call → Type 0) (b : Bool) (m n : Exec History E A)
    → Makes P m
    → Makes P n
    → Makes P (elim b [ true ↦ m | false ↦ n ])
bool-Makes P true m n qm qn = qm
bool-Makes P false m n qm qn = qn

-- A computation whose result is known.
pub known-Guarded :
    {E A B : Type 0} (P Q : Call → Type 0) (check : Exec History E (Unit {0})) (r : Result E A)
    (f : A → Exec History E B) (a : A) (s : History)
    → r ≡ ok a
    → Guarded P Q check s (f a s)
    → Guarded P Q check s ((lift r >>= f) s)
unfolding ◌>>=◌ lift
known-Guarded P Q check r f a s e g = rw (e) g

-- A computation that may fail before any call is made.
pub computed-Guarded :
    {E A B : Type 0} (P Q : Call → Type 0) (check : Exec History E (Unit {0})) (r : Result E A)
    (f : A → Exec History E B) (s : History)
    → ((a : A) → r ≡ ok a → Guarded P Q check s (f a s))
    → Guarded P Q check s ((lift r >>= f) s)
unfolding ◌>>=◌ lift
computed-Guarded P Q check (ok a) f s g = g a refl
computed-Guarded P Q check (err e) f s g = refused e s here
