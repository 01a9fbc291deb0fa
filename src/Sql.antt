-- ===== src/Sql.antt =====
-- The driver of a PostgreSQL database (pgxpool.Pool and pgx.Tx of github.com/jackc/pgx/v5), as far as
-- internal/eventstore/postgres and internal/projections/postgres call it: a parameter, with what its documentation and
-- the server's promise. The statements are data, one constructor for each SQL text of the source.
use streamledger.Prelude.{◌≡◌, ◌⊎◌}
use streamledger.Outcome.{Error, Outcome, ok, err}
use streamledger.Action.{Action}

-- `D` is the database between transactions, `T` inside of one. A SELECT that a store scans runs by
-- `read` on the pool and by `peek` in a transaction; `exec` is a statement that is its own transaction.
pub record Connection {Q : Type 0} (Answer : Q → Type 0) (D T : Type 0) : Type 0 where
  pub begin : D → Outcome T
  pub run : (q : Q) → Action T (Answer q)
  pub commit : T → Action D (Unit {0})
  pub rollback : T → D → D
  pub read : (q : Q) → D → Outcome (Answer q)
  pub peek : (q : Q) → T → Outcome (Answer q)
  pub exec : (q : Q) → Action D (Answer q)

-- The promises, given what each statement answers from the tables and what it leaves there.
-- After an error of COMMIT it is open whether the server has committed: the connection may have
-- been lost on the way back.
pub record Keeps {Q : Type 0} {Answer : Q → Type 0} {Tables : Type 0}
    (Answers : (q : Q) → Tables → Answer q → Type 0) (after : (q : Q) → Answer q → Tables → Tables)
    {D T : Type 0} (db : Connection Answer D T) : Type 0 where
  pub stored : D → Tables
  pub seen : T → Tables
  pub begins : (s : D) {t : T} → db.begin s ≡ ok t → seen t ≡ stored s
  pub runs :
      (q : Q) (t : T) {a : Answer q}
      → (db.run q t).0 ≡ ok a
      → Answers q (seen t) a × (seen (db.run q t).1 ≡ after q a (seen t))
  pub commits : (t : T) (s : D) → (db.commit t s).0 ≡ ok tt → stored (db.commit t s).1 ≡ seen t
  -- a transaction that has written nothing commits nothing
  pub commits_nothing :
      (t : T) (s : D) → seen t ≡ stored s → (db.commit t s).0 ≡ ok tt → (db.commit t s).1 ≡ s
  pub commit_fails :
      (t : T) (s : D) {e : Error}
      → (db.commit t s).0 ≡ err e
      → (db.rollback t (db.commit t s).1 ≡ s) ⊎ (stored (db.rollback t (db.commit t s).1) ≡ seen t)
  pub rolls_back : (t : T) (s : D) → db.rollback t s ≡ s
  pub reads : (q : Q) (s : D) {a : Answer q} → db.read q s ≡ ok a → Answers q (stored s) a
  pub peeks : (q : Q) (t : T) {a : Answer q} → db.peek q t ≡ ok a → Answers q (seen t) a
  pub execs :
      (q : Q) (s : D) {a : Answer q}
      → (db.exec q s).0 ≡ ok a
      → Answers q (stored s) a × (stored (db.exec q s).1 ≡ after q a (stored s))

-- A database on which no connection is lost: an error of COMMIT is the server's, which has then
-- rolled back.
abbrev pub Certain :
    {Q : Type 0} {Answer : Q → Type 0} {D T : Type 0} → Connection Answer D T → Type 0
Certain {D = D} {T = T} db =
    (t : T) (s : D) (e : Error) → (db.commit t s).0 ≡ err e → db.rollback t (db.commit t s).1 ≡ s
