-- ===== src/Reset/Admission/Safety.antt =====
-- src/reset/DataResetPolicy.cpp: the invariant of the counter, the owner and the tasks.
use power_monitor_sensor.Common.{
  ℕ, zero, suc, ◌+◌, ◌^◌, ◌≤◌, ◌<◌, ◌≡◌, refl, Bool, true, List, [], ◌∷◌, ◌++◌, arith, length, sym,
  ap, ◌∙◌,
}
use power_monitor_sensor.Reset.Admission.{
  Shared, Reader, away, checked, counted, holding, leaving, loaded, reader_step, System, Step, read,
  claim, attest, release, disrupt, restore, Reach, start, later, boot, reset, claim_reset_admission,
  release_reset_admission, claim_disruptive_admission, away_readers, release_disruptive_admission,
  reset_admission_active,
}

-- Whether a task is counted in `in_flight`, and whether it holds the lease.
abbrev pub counts : Reader → ℕ
counts away = 0
counts checked = 0
counts _ = 1

abbrev pub holds : Reader → ℕ
holds holding = 1
holds _ = 0

-- A loaded value is never 0.
abbrev pub blocked : Reader → ℕ
blocked (loaded zero) = 1
blocked _ = 0

pub total : (Reader → ℕ) → List Reader → ℕ
total w [] = 0
total w (x ∷ xs) = w x + total w xs

total-middle :
    (w : Reader → ℕ) (xs : List Reader) (x : Reader) (ys : List Reader)
    → total w (xs ++ x ∷ ys) ≡ w x + (total w xs + total w ys)
unfolding total
total-middle w [] x ys = omega arith
total-middle w (z ∷ xs) x ys = omega (arith, total-middle w xs x ys)

length-middle :
    (xs : List Reader) (x : Reader) (ys : List Reader)
    → length (xs ++ x ∷ ys) ≡ suc (length xs + length ys)
length-middle [] x ys = omega arith
length-middle (z ∷ xs) x ys = omega (arith, length-middle xs x ys)

total-counts-le : (xs : List Reader) → total counts xs ≤ length xs
unfolding total
total-counts-le [] = omega arith
total-counts-le (x ∷ xs) = ground (arith, total-counts-le xs)

total-holds-le : (xs : List Reader) → total holds xs ≤ total counts xs
unfolding total
total-holds-le [] = omega arith
total-holds-le (x ∷ xs) = ground (arith, total-holds-le xs)

pub record Inv (n : ℕ) (s : System) : Type 0 where
  pub size : length s.readers ≡ n
  pub counter : s.shared.in_flight ≡ total counts s.readers
  pub unblocked : total blocked s.readers ≡ 0
  pub sealed : s.attested ≡ true → (s.shared.owner ≡ reset) × (total holds s.readers ≡ 0)

-- What one task's step does to the counts.
record Counted (s s' : Shared) (task task' : Reader) : Type 0 where
  flight : s'.in_flight + counts task ≡ s.in_flight + counts task'
  loads : blocked task' ≡ 0
  same : s'.owner ≡ s.owner
  grants : s.owner ≡ reset → holds task' ≤ holds task

reader_step-Counted :
    (n : ℕ) (spurious : Bool) (s : Shared) (task : Reader)
    → n < 2 ^ 32
    → s.in_flight + 1 ≤ n + counts task
    → counts task ≤ s.in_flight
    → blocked task ≡ 0
    → Counted s (reader_step spurious s task).0 task (reader_step spurious s task).1
unfolding reader_step reset_admission_active
reader_step-Counted n spurious s away small room some_in ok = ground arith
reader_step-Counted n spurious s checked small room some_in ok = ground arith
reader_step-Counted n spurious s counted small room some_in ok = ground arith
reader_step-Counted n spurious s holding small room some_in ok = ground arith
reader_step-Counted n spurious s leaving small room some_in ok = ground arith
reader_step-Counted n spurious s (loaded zero) small room some_in ok = cc
reader_step-Counted n spurious s (loaded (suc c)) small room some_in ok = ground arith

-- The invariant at a list of tasks that is given in three parts.
record Split (n : ℕ) (s : System) (before : List Reader) (task : Reader) (after : List Reader)
    : Type 0 where
  parts : length before + length after + 1 ≡ n
  flight : s.shared.in_flight ≡ counts task + (total counts before + total counts after)
  room : total counts before + total counts after + 1 ≤ n
  clear : blocked task + (total blocked before + total blocked after) ≡ 0
  closed :
      s.attested ≡ true
      → (s.shared.owner ≡ reset) × (holds task + (total holds before + total holds after) ≡ 0)

Inv-Split :
    (n : ℕ) (s : System) (before : List Reader) (task : Reader) (after : List Reader)
    → s.readers ≡ before ++ task ∷ after
    → Inv n s
    → Split n s before task after
Inv-Split n s before task after e inv =
    let size = ap length e in
    let counted_all = ap (total counts) e in
    let blocked_all = ap (total blocked) e in
    let held_all = ap (total holds) e in
    let middle = total-middle counts before task after in
    record {
      parts = omega (arith, size, inv.size, length-middle before task after);
      flight = omega (arith, counted_all, inv.counter, middle);
      room = omega (
        arith,
        size,
        inv.size,
        length-middle before task after,
        total-counts-le before,
        total-counts-le after,
      );
      clear = omega (arith, blocked_all, inv.unblocked, total-middle blocked before task after);
      closed = λ a. (
        (inv.sealed a).0,
        omega (arith, held_all, inv.sealed a, total-middle holds before task after),
      );
    }

-- The converse, for the state behind a task's step.
Split-Inv :
    (n : ℕ) (s : System) (before : List Reader) (task : Reader) (after : List Reader)
    → s.readers ≡ before ++ task ∷ after
    → Split n s before task after
    → Inv n s
Split-Inv n s before task after e p = record {
  size = omega (arith, ap length e, length-middle before task after, p.parts);
  counter = omega (arith, ap (total counts) e, total-middle counts before task after, p.flight);
  unblocked = omega (arith, ap (total blocked) e, total-middle blocked before task after, p.clear);
  sealed = λ a. (
    (p.closed a).0,
    omega (arith, ap (total holds) e, total-middle holds before task after, p.closed a),
  );
}

read-Inv :
    (n : ℕ) (spurious : Bool) (s : System) (before : List Reader) (task : Reader)
    (after : List Reader)
    → n < 2 ^ 32
    → s.readers ≡ before ++ task ∷ after
    → Inv n s
    → Inv n (record s {
      shared = (reader_step spurious s.shared task).0;
      readers = before ++ (reader_step spurious s.shared task).1 ∷ after;
    })
read-Inv n spurious s before task after small e inv =
    let p = Inv-Split n s before task after e inv in
    let c =
      reader_step-Counted n spurious s.shared task small (omega (arith, p)) (omega (arith, p))
        (omega (arith, p)) in
    Split-Inv n _ before (reader_step spurious s.shared task).1 after refl (record {
      parts = p.parts;
      flight = omega (arith, p, c);
      room = p.room;
      clear = omega (arith, p, c);
      closed = λ a. (c.same ∙ (p.closed a).0, omega (arith, p.closed a, c.grants (p.closed a).0));
    })

boot-Inv : (n : ℕ) → Inv n (boot n)
unfolding total
boot-Inv n = record {
  size = length_away n;
  counter = sym (total_away counts n refl);
  unblocked = total_away blocked n refl;
  sealed = λ a. cc;
}
  where
    length_away : (n : ℕ) → length (away_readers n) ≡ n
    length_away zero = refl
    length_away (suc n) = ap suc (length_away n)

    total_away : (w : Reader → ℕ) (n : ℕ) → w away ≡ 0 → total w (away_readers n) ≡ 0
    total_away w zero z = refl
    total_away w (suc n) z = omega (arith, z, total_away w n z)

Step-Inv : {n : ℕ} {s t : System} → n < 2 ^ 32 → Step s t → Inv n s → Inv n t
unfolding claim_reset_admission release_reset_admission claim_disruptive_admission
    release_disruptive_admission reset_admission_active
Step-Inv {n} small (read spurious s before task after e) inv =
    read-Inv n spurious s before task after small e inv
Step-Inv small (claim s) inv = ground arith
Step-Inv small (attest s active none_in) inv = record {
  size = inv.size;
  counter = inv.counter;
  unblocked = inv.unblocked;
  sealed = λ a. ground (arith, inv.counter, total-holds-le s.readers);
}
Step-Inv small (release s) inv = ground arith
Step-Inv small (disrupt s) inv = ground arith
Step-Inv small (restore s) inv = ground arith

Reach-Inv : {n : ℕ} {s : System} → n < 2 ^ 32 → Reach n s → Inv n s
Reach-Inv {n} small start = boot-Inv n
Reach-Inv small (later r st) = Step-Inv small st (Reach-Inv small r)

-- In every state that fewer than 2 ^ 32 reading tasks and the reset can reach, in any interleaving
-- and with any spurious failures of the weak exchange: while the reset is attested, it owns admission
-- and no task holds a reading-sync lease.
pub attested_alone :
    {n : ℕ} {s : System}
    → n < 2 ^ 32
    → Reach n s
    → s.attested ≡ true
    → (s.shared.owner ≡ reset) × (total holds s.readers ≡ 0)
attested_alone small r a = (Reach-Inv small r).sealed a

-- In every state that fewer than 2 ^ 32 reading tasks and the reset can reach, the counter is exactly
-- the number of tasks between their count and their release, so no lease is lost or counted twice.
pub in_flight_exact :
    {n : ℕ} {s : System} → n < 2 ^ 32 → Reach n s → s.shared.in_flight ≡ total counts s.readers
in_flight_exact small r = (Reach-Inv small r).counter
