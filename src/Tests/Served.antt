-- ===== src/Tests/Served.antt =====
-- A database that runs its statements one after another on the tables themselves.
use streamledger.Prelude.{◌≡◌, inl, inr, refl, arith}
use streamledger.Outcome.{Outcome, ok, err, Outcome-cases}
use streamledger.Action.{Action}
use streamledger.Sql.{Connection, Keeps}

module _ {Q Tables : Type 0} {Answer : Q → Type 0} (after : (q : Q) → Answer q → Tables → Tables)
    (answer : (q : Q) → Tables → Outcome (Answer q)) where
  abbrev pub effect : (q : Q) → Outcome (Answer q) → Action Tables (Answer q)
  effect q (ok a) t = (ok a, after q a t)
  effect q (err e) t = (err e, t)

  abbrev pub served : Connection Answer Tables Tables
  served = record {
    begin = ok;
    run = λ q t. effect q (answer q t) t;
    commit = λ t s. (ok tt, t);
    rollback = λ t s. s;
    read = answer;
    peek = answer;
    exec = λ q t. effect q (answer q t) t;
  }

  module _ (Answers : (q : Q) → Tables → Answer q → Type 0)
      (right : (q : Q) (ts : Tables) (a : Answer q) → answer q ts ≡ ok a → Answers q ts a) where
    pub effect_lem :
        (q : Q) (t : Tables) {a : Answer q}
        → (effect q (answer q t) t).0 ≡ ok a
        → Answers q t a × ((effect q (answer q t) t).1 ≡ after q a t)
    effect_lem q t {a} e = elim (Outcome-cases (answer q t)) [
      | inl (b, h) ↦
          let same : b ≡ a = let f : ok b ≡ ok a = rw h at e in ground arith in
          rw (h, ← same) (right q t b h, refl)
      | inr (x, h) ↦ let f : err x ≡ ok a = rw h at e in absurd (ground arith)
    ]

    abbrev pub served-Keeps : Keeps Answers after served
    served-Keeps = record {
      stored = λ s. s;
      seen = λ t. t;
      begins = λ s e. ground arith;
      runs = effect_lem;
      commits = λ t s e. refl;
      commits_nothing = λ t s same e. same;
      commit_fails = λ t s e. absurd (ground arith);
      rolls_back = λ t s. refl;
      reads = λ q s {a} e. right q s a e;
      peeks = λ q t {a} e. right q t a e;
      execs = effect_lem;
    }
