-- ===== src/Transfers/Task/Triples.antt =====
-- What holds after a task that returns, and after one that raises: a rule for each way to build one.
use remote_ssh_mcp_server.Prelude.{◌≡◌, refl, Bool, true, false}
use remote_ssh_mcp_server.Errors.{Code, Result, ok, err}
use remote_ssh_mcp_server.Transfers.Operation.{TransferOperation}
use remote_ssh_mcp_server.Transfers.Task.{Job, Task, continue, ◌>>=◌, lift, modify, ensure}

abbrev pub After : {A : Type 0} → (A → Job → Type 0) → (Job → Type 0) → Result A × Job → Type 0
After Q E (ok a, j) = Q a j
After Q E (err e, j) = E j

-- From a job with `P` the task `m` returns with `Q` or raises with `E`.
pub record Triple {A : Type 0} (P : Job → Type 0) (m : Task A) (Q : A → Job → Type 0)
    (E : Job → Type 0) : Type 0 where
  pub at : (j : Job) → P j → After Q E (m j)

Triple-continue :
    {A B : Type 0} {Q : A → Job → Type 0} {R : B → Job → Type 0} {E : Job → Type 0} (f : A → Task B)
    (rj : Result A × Job)
    → ((a : A) → Triple (Q a) (f a) R E)
    → After Q E rj
    → After R E (continue rj.0 f rj.1)
Triple-continue f (ok a, j) tf h = (tf a).at j h
Triple-continue f (err e, j) tf h = h

pub Triple-bind :
    {A B : Type 0} {P : Job → Type 0} {Q : A → Job → Type 0} {R : B → Job → Type 0}
    {E : Job → Type 0} {m : Task A} {f : A → Task B}
    → Triple P m Q E
    → ((a : A) → Triple (Q a) (f a) R E)
    → Triple P (m >>= f) R E
unfolding ◌>>=◌
Triple-bind {m} {f} tm tf = record { at = λ j h. Triple-continue f (m j) tf (tm.at j h) }

-- A call that changes nothing returns one of the values that it can give.
pub Triple-lift :
    {A : Type 0} {P : Job → Type 0} (r : Result A) → Triple P (lift r) (λ a j. (r ≡ ok a) × P j) P
unfolding lift
Triple-lift (ok a) = record { at = λ j h. (refl, h) }
Triple-lift (err e) = record { at = λ j h. h }

pub Triple-lift_any : {A : Type 0} {P : Job → Type 0} (r : Result A) → Triple P (lift r) (λ _. P) P
unfolding lift
Triple-lift_any (ok a) = record { at = λ j h. h }
Triple-lift_any (err e) = record { at = λ j h. h }

pub Triple-ensure :
    {P : Job → Type 0} (test : Bool) (c : Code)
    → Triple P (ensure test c) (λ _ j. (test ≡ true) × P j) P
unfolding ensure
Triple-ensure true c = record { at = λ j h. (refl, h) }
Triple-ensure false c = record { at = λ j h. h }

pub Triple-modify :
    {P : Job → Type 0} {Q : Unit {0} → Job → Type 0} {E : Job → Type 0}
    (f : TransferOperation → TransferOperation)
    → ((j : Job) → P j → Q tt (record j { operation = f j.operation }))
    → Triple P (modify f) Q E
unfolding modify
Triple-modify f h = record { at = h }

-- A weaker end for the returns and for the exceptions.
pub Triple-weaken :
    {A : Type 0} {P : Job → Type 0} {Q R : A → Job → Type 0} {E F : Job → Type 0} {m : Task A}
    → Triple P m Q E
    → ((a : A) (j : Job) → Q a j → R a j)
    → ((j : Job) → E j → F j)
    → Triple P m R F
Triple-weaken {m} t q e = record { at = λ j h. After-weaken (m j) (t.at j h) q e }
  where
    After-weaken :
        {A : Type 0} {Q R : A → Job → Type 0} {E F : Job → Type 0} (rj : Result A × Job)
        → After Q E rj
        → ((a : A) (j : Job) → Q a j → R a j)
        → ((j : Job) → E j → F j)
        → After R F rj
    After-weaken (ok a, j) h q e = q a j h
    After-weaken (err x, j) h q e = e j h

pub Triple-return :
    {A : Type 0} {P : Job → Type 0} {Q : A → Job → Type 0} {E : Job → Type 0} (a : A)
    → ((j : Job) → P j → Q a j)
    → Triple P (lift (ok a)) Q E
unfolding lift
Triple-return a h = record { at = h }

-- A fact that does not speak of the job.
pub Triple-use :
    {A : Type 0} {F : Type 0} {P : Job → Type 0} {Q : A → Job → Type 0} {E : Job → Type 0}
    {m : Task A}
    → (F → Triple P m Q E)
    → Triple (λ j. F × P j) m Q E
Triple-use t = record { at = λ j h. (t h.0).at j h.1 }
