-- ===== src/Prelude/Fallible.antt =====
-- Calls that give nothing when they raise, one after the other.
use remote_ssh_mcp_server.Prelude.{Bool, true, false, Option, none, some, ◌≡◌, refl, arith}

infixl 5 ◌>>=◌ ◌>>◌
abbrev pub ◌>>=◌ : {A B : Type 0} → Option A → (A → Option B) → Option B
none >>= rest = none
some a >>= rest = rest a

abbrev pub ◌>>◌ : {B : Type 0} → Option (Unit {0}) → Option B → Option B
test >> rest = test >>= λ _. rest

-- `if not test: raise …`
abbrev pub check : Bool → Option (Unit {0})
check true = some tt
check false = none

pub >>=-some :
    {A B : Type 0} (call : Option A) (rest : A → Option B) (b : B)
    → (call >>= rest) ≡ some b
    → (a : A) × (call ≡ some a) × (rest a ≡ some b)
>>=-some none rest b h = absurd (cc)
>>=-some (some a) rest b h = (a, refl, h)

pub some-inj : {A : Type 0} {a b : A} → some a ≡ some b → a ≡ b
some-inj e = ground arith

pub check-some : (test : Bool) (u : Unit {0}) → check test ≡ some u → test ≡ true
check-some true u h = refl
check-some false u h = absurd (cc)
