-- ===== src/Env/Requests.antt =====
-- What every request of an action satisfies, with one rule for each way to build an action.
use cnsbench.Prelude.{
  ℕ, ℤ, Option, none, some, String, Assoc, Bool, true, false, List, [], ◌∷◌, ◌++◌, All, All-append,
  append_assoc, ◌≡◌, refl, sym, ap, ◌∙◌, if◌then◌else◌,
}
use cnsbench.Exec.{
  Error, Fault, Outcome, ok, err, fault, Try, returned, failed, pure, raise, crash, lift, ◌>>=◌,
  ◌>>◌, continue, on_try, on_option, attempt, for_each, logged,
}
use cnsbench.Api.{Benchmark}
use cnsbench.Kube.{Object}
use cnsbench.Env.Base.{
  updated, created, deleted, watched, posted, Call, Reconciler, Run, request, read, call, gets,
  set_instances, set_channels,
}

-- Every request that `m` makes, whether it returns or fails, satisfies `P`.
pub record Emits {W A : Type 0} (P : Call → Type 0) (m : Run W A) : Type 0 where
  pub at : (s : Reconciler W) → (new : List Call) × ((m s).1.calls ≡ new ++ s.calls) × All P new

-- A property of requests that holds of every request but a write of the status.
pub record Admits (P : Call → Type 0) : Type 0 where
  pub of_created : (o : Object) → P (created o)
  pub of_watched : (o : Object) → P (watched o)
  pub of_deleted : (name : String) → P (deleted name)
  pub of_posted : (url body : String) → P (posted url body)
  pub of_updated : (b : Benchmark) → P (updated b)

module _ {W A : Type 0} {P : Call → Type 0} where
  pub Emits-pure : (a : A) → Emits {W = W} P (pure a)
  unfolding pure
  Emits-pure a = record { at = λ s. ([], refl, tt) }

  pub Emits-raise : (e : Error) → Emits {W = W} {A = A} P (raise e)
  unfolding raise
  Emits-raise e = record { at = λ s. ([], refl, tt) }

  pub Emits-crash : (x : Fault) → Emits {W = W} {A = A} P (crash x)
  unfolding crash
  Emits-crash x = record { at = λ s. ([], refl, tt) }

  pub Emits-lift : (r : Outcome A) → Emits {W = W} P (lift r)
  unfolding lift
  Emits-lift r = record { at = λ s. ([], refl, tt) }

  pub Emits-request : (f : W → Try A × W) → Emits P (request f)
  unfolding request
  Emits-request f = record { at = λ s. ([], refl, tt) }

  pub Emits-read : (f : W → A × W) → Emits P (read f)
  unfolding read
  Emits-read f = record { at = λ s. ([], refl, tt) }

  pub Emits-gets : (f : Reconciler W → A) → Emits P (gets f)
  unfolding gets
  Emits-gets f = record { at = λ s. ([], refl, tt) }

  pub Emits-call : (c : Call) (f : W → Try A × W) → P c → Emits P (call c f)
  unfolding call
  Emits-call c f h = record { at = λ s. (c ∷ [], refl, (h, tt)) }

  pub Emits-if : (b : Bool) (m n : Run W A) → Emits P m → Emits P n → Emits P (if b then m else n)
  Emits-if true m n hm hn = hm
  Emits-if false m n hm hn = hn

  pub Emits-try :
      {B : Type 0} (t : Try B) (f : Error → Run W A) (g : B → Run W A)
      → ((e : Error) → Emits P (f e))
      → ((b : B) → Emits P (g b))
      → Emits P (on_try t f g)
  Emits-try (failed e) f g hf hg = hf e
  Emits-try (returned b) f g hf hg = hg b

  pub Emits-option :
      {B : Type 0} (o : Option B) (m : Run W A) (g : B → Run W A)
      → Emits P m
      → ((b : B) → Emits P (g b))
      → Emits P (on_option o m g)
  Emits-option none m g hm hg = hm
  Emits-option (some b) m g hm hg = hg b

  pub Emits-attempt : (m : Run W A) → Emits P m → Emits P (attempt m)
  unfolding attempt
  Emits-attempt m h = record { at = h.at }

module _ {W A B : Type 0} {P : Call → Type 0} where
  Emits-continue :
      (r : Outcome A) (f : A → Run W B) → ((a : A) → Emits P (f a)) → Emits P (continue r f)
  Emits-continue (ok a) f h = h a
  Emits-continue (err e) f h = record { at = λ s. ([], refl, tt) }
  Emits-continue (fault x) f h = record { at = λ s. ([], refl, tt) }

  pub Emits-bind :
      (m : Run W A) (f : A → Run W B) → Emits P m → ((a : A) → Emits P (f a)) → Emits P (m >>= f)
  unfolding ◌>>=◌
  Emits-bind m f hm hf = record {
    at = λ s.
        let (r, s') = m s in
        let (old, eq, fine) = hm.at s in
        let (new, eq', fine') = (Emits-continue r f hf).at s' in
        (
          new ++ old,
          eq' ∙ ap (λ cs. new ++ cs) eq ∙ sym (append_assoc new old s.calls),
          All-append P new old fine' fine,
        );
  }

module _ {W B : Type 0} {P : Call → Type 0} where
  pub Emits-then : (m : Run W (Unit {0})) (n : Run W B) → Emits P m → Emits P n → Emits P (m >> n)
  Emits-then m n hm hn = Emits-bind m (λ _. n) hm (λ _. hn)

module _ {W : Type 0} {P : Call → Type 0} where
  pub Emits-set_instances : (m : Assoc String ℤ) → Emits P (set_instances {W = W} m)
  unfolding set_instances
  Emits-set_instances m = record { at = λ s. ([], refl, tt) }

  pub Emits-set_channels : (m : Assoc String ℕ) → Emits P (set_channels {W = W} m)
  unfolding set_channels
  Emits-set_channels m = record { at = λ s. ([], refl, tt) }

  pub Emits-logged : (m : Run W (Unit {0})) → Emits P m → Emits P (logged m)
  unfolding logged
  Emits-logged m h = Emits-bind (attempt m) (λ _. pure tt) (Emits-attempt m h) (λ a. Emits-pure tt)

  pub Emits-for_each :
      {A : Type 0} (xs : List A) (body : A → Run W (Unit {0}))
      → ((a : A) → Emits P (body a))
      → Emits P (for_each xs body)
  unfolding for_each
  Emits-for_each [] body h = Emits-pure tt
  Emits-for_each (a ∷ xs) body h =
      Emits-bind (body a) (λ _. for_each xs body) (h a) (λ _. Emits-for_each xs body h)

pub ruleset emits_rules = (
  Emits-pure, Emits-raise, Emits-crash, Emits-lift, Emits-request, Emits-read, Emits-gets,
  Emits-set_instances, Emits-set_channels, Emits-call, Emits-if, Emits-try, Emits-option,
  Emits-attempt, Emits-bind, Emits-then, Emits-logged, Emits-for_each,
)
