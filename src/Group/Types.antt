-- ===== src/Group/Types.antt =====
-- `Group`, the surroundings of its methods, and the locks of internal/group/lock.go.
-- The methods run on a disk; one that fails returns the `Errmsg` of its group.
use gonewsd.Prelude.{
  ℕ, Bool, false, [], none, some, if◌then◌else◌, Bytes, FilePath, str, ◌≡◌, refl, ap,
}
use gonewsd.Prelude.Int.{ℤ, pos}
use gonewsd.Config.{Config}
use gonewsd.Spool.Names.{dirname, join_path}
use gonewsd.Spool.Disk.{Disk, Os, dir, file, Written, written, stat, create_file}

pub record Group : Type 0 where
  pub name : Bytes
  pub start : ℕ
  pub end : ℕ
  pub total : ℕ
  pub desc : Bytes
  pub creator : Bytes
  pub cc_post : Bytes
  pub reply_to : Bytes
  pub void_email : Bytes
  pub post_limit : ℤ
  pub ctime : ℕ
  pub valid : Bool

-- `var g group.Group`
abbrev pub no_group : Group
no_group = record {
  name = [];
  start = 0;
  end = 0;
  total = 0;
  desc = [];
  creator = [];
  cc_post = [];
  reply_to = [];
  void_email = [];
  post_limit = pos 0;
  ctime = 0;
  valid = false;
}

-- What the spam filter command does with an article.
pub data Verdict : Type 0 where
  accepts rejects not_started : Verdict

-- The settings, the system, the date text of `DateRFC822`, and the spam filter command.
pub record Env : Type 0 where
  pub cfg : Config
  pub os : Os
  pub date_rfc822 : Bytes
  pub spam_filter : Bytes → Verdict

pub data Outcome (A : Type 0) : Type 0 where
  ok : A → Outcome A
  fail : Bytes → Outcome A

abbrev pub M : Type 0 → Type 0
M A = Disk → Outcome A × Disk

abbrev pub pure : {A : Type 0} → A → M A
pure a d = (ok a, d)

abbrev pub raise : {A : Type 0} → Bytes → M A
raise msg d = (fail msg, d)

abbrev pub run_next : {A B : Type 0} → Outcome A × Disk → (A → M B) → Outcome B × Disk
run_next (ok a, d) f = f a d
run_next (fail msg, d) f = (fail msg, d)

infixl 5 ◌>>=◌ ◌>>◌
abbrev pub ◌>>=◌ : {A B : Type 0} → M A → (A → M B) → M B
◌>>=◌ m f d = run_next (m d) f

abbrev pub ◌>>◌ : {B : Type 0} → M (Unit {0}) → M B → M B
m >> k = m >>= λ _. k

-- A failure replaces the message: `g.Errmsg = msg; return err`.
abbrev pub or_else : {A : Type 0} → M A → Bytes → M A
or_else m msg d = let (r, d') = m d in (elim r [ ok a ↦ ok a | fail _ ↦ fail msg ], d')

-- The result of a write; a failure leaves the disk alone.
abbrev pub from_written : Bytes → Disk → Written → Outcome (Unit {0}) × Disk
from_written msg d (written d') = (ok tt, d')
from_written msg d _ = (fail msg, d)

abbrev pub lock_path : Config → Bytes → FilePath
lock_path cfg name = join_path (dirname cfg name) (str ".lock")

chown_step : Env → FilePath → M (Unit {0})
chown_step env p d = if env.os.chown_fails p then (fail [], d) else (ok tt, d)

-- `openLockFile`; its errors are not put into `Errmsg`.
open_lock : Env → FilePath → M (Unit {0})
unfolding stat create_file
open_lock env p d = elim (stat d p) [
  | some (dir _) ↦ (fail [], d)
  | some (file _ _) ↦ if env.os.refused p then (fail [], d) else (ok tt, d)
  | none ↦ from_written [] d (create_file env.os p [] d)
]

-- `readLock` and `writeLock`. One client is served at a time, so no lock is waited for.
unfoldable pub take_lock : Env → Bytes → M (Unit {0})
unfolding chown_step open_lock join_path dirname
take_lock env name = do
  open_lock env (lock_path env.cfg name)
  chown_step env (lock_path env.cfg name)

-- Inversion of a successful step.
pub run_next-eq-ok :
    {A B : Type 0} (r : Outcome A × Disk) (f : A → M B) {b : B} {d' : Disk}
    → run_next r f ≡ (ok b, d')
    → (a : A) × (d : Disk) × (r ≡ (ok a, d)) × (f a d ≡ (ok b, d'))
run_next-eq-ok (ok a, d) f h = (a, d, refl, h)
run_next-eq-ok (fail m, d) f h = cc (ap (λ t. t.0) h)

pub fail-ne-ok : {A : Type 0} {m : Bytes} {a : A} → fail m ≡ ok a → ⊥
fail-ne-ok h = cc

pub ok-injective : {A : Type 0} {a b : A} → ok a ≡ ok b → a ≡ b
ok-injective h = cc
