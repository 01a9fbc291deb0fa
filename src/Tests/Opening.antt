-- ===== src/Tests/Opening.antt =====
-- The start of the program with drivers that number the handles, where all that it asks for is opened.
use streamledger.Prelude.{
  ℕ, zero, suc, ◌≡◌, ◌<◌, refl, sym, ap, ◌∙◌, Bool, true, false, Option, none, some, List, [], ◌∷◌,
  ◌++◌, length, if◌then◌else◌, arith,
}
use streamledger.Outcome.{Outcome, ok, err, external}
use streamledger.Startup.{Pools, SchemaFiles, NatsClient, Config, run}
use streamledger.Startup.Balance.{Handle, pool_handle, connection, Tracks}
use streamledger.Startup.Paths.{run_balanced}

-- All handles that were ever opened, the last one first: `some true` is an open pool, `some false` an open
-- connection, and `none` was closed. The number of a handle is the number of those before it.
abbrev Slots : Type 0
Slots = List (Option Bool)

abbrev handle : Bool → ℕ → Handle ℕ ℕ
handle true k = pool_handle k
handle false k = connection k

abbrev number : Handle ℕ ℕ → ℕ
number (pool_handle k) = k
number (connection k) = k

abbrev open_slots : Slots → List (Handle ℕ ℕ)
open_slots [] = []
open_slots (none ∷ slots) = open_slots slots
open_slots (some kind ∷ slots) = handle kind (length slots) ∷ open_slots slots

abbrev same_number : ℕ → ℕ → Bool
same_number zero zero = true
same_number (suc a) (suc b) = same_number a b
same_number _ _ = false

abbrev clear : ℕ → Slots → Slots
clear k [] = []
clear k (slot ∷ slots) =
    let rest = clear k slots in if same_number k (length slots) then none ∷ slots else slot ∷ rest

same_number_refl : (a : ℕ) → same_number a a ≡ true
same_number_refl zero = refl
same_number_refl (suc a) = same_number_refl a

same_number_lt : (a b : ℕ) → a < b → same_number a b ≡ false
same_number_lt zero zero h = absurd (omega arith)
same_number_lt zero (suc b) h = refl
same_number_lt (suc a) zero h = absurd (omega arith)
same_number_lt (suc a) (suc b) h = same_number_lt a b (omega arith)

length-clear : (k : ℕ) (slots : Slots) → length (clear k slots) ≡ length slots
length-clear k [] = refl
length-clear k (slot ∷ slots) = ground (arith, length-clear k slots)

number-handle : (kind : Bool) (k : ℕ) → number (handle kind k) ≡ k
number-handle true k = refl
number-handle false k = refl

number_lt :
    (slots : Slots) (newer older : List (Handle ℕ ℕ)) (h : Handle ℕ ℕ)
    → open_slots slots ≡ newer ++ h ∷ older
    → number h < length slots
number_lt [] [] older h e = absurd (ground arith)
number_lt [] (x ∷ newer) older h e = absurd (ground arith)
number_lt (none ∷ slots) newer older h e =
    let below = number_lt slots newer older h e in omega (arith, below)
number_lt (some kind ∷ slots) [] older h e =
    let same : handle kind (length slots) ≡ h = ground arith in
    let is : length slots ≡ number h = sym (number-handle kind (length slots)) ∙ ap number same in
    omega (arith, is)
number_lt (some kind ∷ slots) (x ∷ newer) older h e =
    let rest : open_slots slots ≡ newer ++ h ∷ older = ground arith in
    let below = number_lt slots newer older h rest in omega (arith, below)

clear_lem :
    (slots : Slots) (newer older : List (Handle ℕ ℕ)) (h : Handle ℕ ℕ)
    → open_slots slots ≡ newer ++ h ∷ older
    → open_slots (clear (number h) slots) ≡ newer ++ older
clear_lem [] [] older h e = absurd (ground arith)
clear_lem [] (x ∷ newer) older h e = absurd (ground arith)
clear_lem (none ∷ slots) newer older h e =
    let other = same_number_lt (number h) (length slots) (number_lt slots newer older h e) in
    let rest = clear_lem slots newer older h e in rw other rest
clear_lem (some kind ∷ slots) [] older h e =
    let same : handle kind (length slots) ≡ h = ground arith in
    let is : number h ≡ length slots = ap number (sym same) ∙ number-handle kind (length slots) in
    let it : same_number (number h) (length slots) ≡ true =
      ap (λ k. same_number k (length slots)) is ∙ same_number_refl (length slots) in
    let rest : open_slots slots ≡ older = ground arith in rw it rest
clear_lem (some kind ∷ slots) (x ∷ newer) older h e =
    let first : handle kind (length slots) ≡ x = ground arith in
    let more : open_slots slots ≡ newer ++ h ∷ older = ground arith in
    let other = same_number_lt (number h) (length slots) (number_lt slots newer older h more) in
    let rest = clear_lem slots newer older h more in
    let long = length-clear (number h) slots in rw (other, long, first, rest) refl

-- The slots, and how many more handles can be opened.
abbrev Process : Type 0
Process = Slots × ℕ

abbrev one_more : Bool → Process → Outcome ℕ × Process
one_more kind (slots, zero) = (err (external "too many connections"), (slots, 0))
one_more kind (slots, suc left) = (ok (length slots), (some kind ∷ slots, left))

abbrev one_less : ℕ → Process → Process
one_less k (slots, left) = (clear k slots, left)

abbrev pools : Pools Process ℕ
pools = record {
  new_pool = λ url. one_more true;
  ping = λ pool s. (ok tt, s);
  exec = λ pool sql s. (ok tt, s);
  close = one_less;
}

abbrev client : NatsClient Process ℕ (Unit {0})
client = record {
  dial = λ url. one_more false;
  new_jetstream = λ nc s. (ok tt, s);
  create_stream = λ js name s. (ok tt, s);
  close = one_less;
  drain = one_less;
}

abbrev files : SchemaFiles
files = record { read_dir = ok ("0002.sql" ∷ "0001.sql" ∷ []); read_file = ok }

one_more_ok :
    (kind : Bool) (s : Process) {k : ℕ}
    → (one_more kind s).0 ≡ ok k
    → open_slots (one_more kind s).1.0 ≡ handle kind k ∷ open_slots s.0
one_more_ok kind (slots, zero) e = absurd (ground arith)
one_more_ok kind (slots, suc left) {k} e =
    let same : length slots ≡ k = ground arith in ap (λ n. handle kind n ∷ open_slots slots) same

abbrev tracks : Tracks pools client
tracks = record {
  open_now = λ s. open_slots s.0;
  opens_pool = λ url s {pool} e. one_more_ok true s e;
  opens_none = λ url s e. ground arith;
  pings = λ pool s. refl;
  execs = λ pool sql s. refl;
  closes_pool = λ pool s newer older h. clear_lem s.0 newer older (pool_handle pool) h;
  dials = λ url s {nc} e. one_more_ok false s e;
  dials_none = λ url s e. ground arith;
  jetstreams = λ nc s. refl;
  streams = λ js name s. refl;
  closes_nats = λ nc s newer older h. clear_lem s.0 newer older (connection nc) h;
  drains = λ nc s newer older h. clear_lem s.0 newer older (connection nc) h;
}

abbrev production : Config
production = record {
  storage_kind = "postgres";
  database_url = "postgres://db";
  bus_kind = "nats";
  nats_url = "nats://bus";
}

-- Both pools and the connection are opened, and none is open at the end.
run_balanced_example :
    open_slots
      (run pools files files client production
        (λ s. (ok tt, s))
        (λ storage bus s. (ok tt, s))
        ([], 3)).1.0
    ≡ []
run_balanced_example =
    run_balanced pools client tracks files files (λ s. (ok tt, s)) (λ storage bus s. (ok tt, s))
      (λ s. refl) (λ storage bus s. refl) production ([], 3)
