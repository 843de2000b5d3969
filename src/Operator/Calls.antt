-- ===== src/Operator/Calls.antt =====
-- Reasoning about the calls that an action on the API server makes.
use beegfs_csi_driver.Prelude.{
  ◌≡◌, refl, ap, ◌∙◌, Bool, true, false, Option, none, some, All, arith,
}
use beegfs_csi_driver.Prelude.Result.{Result, ok, err, pure, fail, lift, continue, ◌>>=◌}
use beegfs_csi_driver.Operator.Api.{Action, ApiError, Call, History, fetch, send, remove, or_absent}

-- All calls that the action makes satisfy `P`.
pub record Makes {A : Type 0} (P : Call → Type 0) (m : Action A) : Type 0 where
  pub keeps : (s : History) → All P s → All P (m s).1

module _ {A : Type 0} (P : Call → Type 0) where
  pub pure-Makes : (a : A) → Makes P (pure a)
  unfolding pure
  pure-Makes a = record { keeps = λ s h. h }

  pub fail-Makes : (e : ApiError) → Makes {A = A} P (fail e)
  unfolding fail
  fail-Makes e = record { keeps = λ s h. h }

  pub lift-Makes : (r : Result ApiError A) → Makes P (lift r)
  unfolding lift
  lift-Makes r = record { keeps = λ s h. h }

  pub fetch-Makes :
      (reply : History → Call → Result ApiError A) (c : Call) → P c → Makes P (fetch reply c)
  unfolding fetch
  fetch-Makes reply c p = record { keeps = λ s h. (p, h) }

  pub send-Makes :
      (reply : History → Call → Result ApiError A) (c : Call) → P c → Makes P (send reply c)
  unfolding send
  send-Makes reply c p = record { keeps = λ s h. (p, h) }

pub remove-Makes :
    (P : Call → Type 0) (reply : History → Call → Result ApiError (Unit {0})) (c : Call)
    → P c
    → Makes P (remove reply c)
unfolding remove
remove-Makes P reply c p = record { keeps = λ s h. (p, h) }

module _ {A B : Type 0} (P : Call → Type 0) where
  pub bind-Makes :
      (m : Action A) (f : A → Action B) → Makes P m → ((a : A) → Makes P (f a)) → Makes P (m >>= f)
  unfolding ◌>>=◌
  bind-Makes m f qm qf = record { keeps = λ s h. after (m s).0 (m s).1 (qm.keeps s h) }
    where
      after : (r : Result ApiError A) (t : History) → All P t → All P (continue r f t).1
      after (ok a) t h = (qf a).keeps t h
      after (err e) t h = h

  -- The same, where the second action may rely on what the first one returns.
  pub bind_with-Makes {κ} :
      (m : Action A) (f : A → Action B) (Q : A → Type κ)
      → ((s : History) (a : A) → (m s).0 ≡ ok a → Q a)
      → Makes P m
      → ((a : A) → Q a → Makes P (f a))
      → Makes P (m >>= f)
  unfolding ◌>>=◌
  bind_with-Makes m f Q returns qm qf = record {
    keeps = λ s h. after (m s).0 (m s).1 (returns s) (qm.keeps s h);
  }
    where
      after :
          (r : Result ApiError A) (t : History)
          → ((a : A) → r ≡ ok a → Q a)
          → All P t
          → All P (continue r f t).1
      after (ok a) t q h = (qf a (q a refl)).keeps t h
      after (err e) t q h = h

  pub option-Makes :
      (o : Option A) (m : Action B) (f : A → Action B)
      → Makes P m
      → ((a : A) → Makes P (f a))
      → Makes P (elim o [ none ↦ m | some a ↦ f a ])
  option-Makes none m f qm qf = qm
  option-Makes (some a) m f qm qf = qf a

pub bool-Makes :
    {B : Type 0} (P : Call → Type 0) (b : Bool) (m n : Action B)
    → Makes P m
    → Makes P n
    → Makes P (elim b [ true ↦ m | false ↦ n ])
bool-Makes P true m n qm qn = qm
bool-Makes P false m n qm qn = qn

-- The same, where each branch may rely on the test.
pub bool_with-Makes :
    {B : Type 0} (P : Call → Type 0) (b : Bool) (m n : Action B)
    → (b ≡ true → Makes P m)
    → (b ≡ false → Makes P n)
    → Makes P (elim b [ true ↦ m | false ↦ n ])
bool_with-Makes P true m n qm qn = qm refl
bool_with-Makes P false m n qm qn = qn refl

or_absent-eq-some :
    {A : Type 0} (r : Result ApiError A) {a : A} → or_absent r ≡ ok (some a) → r ≡ ok a
unfolding or_absent
or_absent-eq-some (ok a) e = ground arith
or_absent-eq-some (err ApiError.not_found) e = absurd (ground arith)
or_absent-eq-some (err (ApiError.api_failure m)) e = absurd (ground arith)
or_absent-eq-some (err (ApiError.crash m)) e = absurd (ground arith)

-- What a read that found something was answered.
pub fetch-eq-some :
    {A : Type 0} (reply : History → Call → Result ApiError A) (c : Call) (s : History)
    (found : Option A) (a : A)
    → (fetch reply c s).0 ≡ ok found
    → found ≡ some a
    → reply s c ≡ ok a
unfolding fetch
fetch-eq-some reply c s found a e is = or_absent-eq-some (reply s c) (e ∙ ap ok is)
