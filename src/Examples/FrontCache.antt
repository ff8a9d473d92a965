-- ===== src/Examples/FrontCache.antt =====
-- Two tasks that ask for one key.
use python_smartdns.Prelude.{ℕ, true, none, some, ◌≡◌, ◌⊎◌, refl}
use python_smartdns.Workers.{has_id}
use python_smartdns.FrontCache.{Key, lookup, holder_of, acquire_key}
use python_smartdns.FrontCache.Coalescing.{
  missed, waiting, owning, World, move, acquired, Steps, start, then_step, misses, acquires,
}
use python_smartdns.FrontCache.Liveness.{fresh, Steps-awaited, Steps-single}
use python_smartdns.Examples.Data.{small_dns}

abbrev key : Key
key = record { name = "example.org."; rdtype = 1; rdclass = 1 }

abbrev opened : World ℕ
opened = fresh 0

abbrev first_missed : World ℕ
first_missed = record opened { stage = move opened.stage 0 missed }

abbrev both_missed : World ℕ
both_missed = record first_missed { stage = move first_missed.stage 1 missed }

abbrev acquiring : ℕ → World ℕ → World ℕ
acquiring i w = record w {
  front = (acquire_key key w.front).1;
  stage = move w.stage i (acquired key (acquire_key key w.front).0);
}

abbrev both_acquired : World ℕ
both_acquired = acquiring 1 (acquiring 0 both_missed)

second_still : (acquiring 0 both_missed).stage 1 ≡ missed
unfolding acquire_key
second_still = refl

both_run : Steps small_dns opened both_acquired
both_run =
    then_step
      (then_step (then_step (then_step start (misses opened 0 refl)) (misses first_missed 1 refl))
        (acquires both_missed 0 key refl))
      (acquires (acquiring 0 both_missed) 1 key second_still)

second_waits : both_acquired.stage 1 ≡ waiting 0
unfolding acquire_key
second_waits = refl

first_owns : both_acquired.stage 0 ≡ owning key
unfolding acquire_key
first_owns = refl

unset : holder_of both_acquired.front.holders 0 ≡ none
unfolding acquire_key
unset = refl

Steps-awaited_example :
    ((k : Key) × (j : ℕ) × (both_acquired.stage j ≡ owning k)
      × (lookup both_acquired.front.pending k ≡ some 0))
    ⊎ (has_id 0 both_acquired.lost ≡ true)
Steps-awaited_example = Steps-awaited small_dns 0 both_acquired 1 0 both_run second_waits unset

Steps-single_example : ◌≡◌ {A = ℕ} 0 0
Steps-single_example =
    Steps-single small_dns 0 both_acquired 0 0 key both_run refl first_owns first_owns
