-- ===== src/Tests/Flight.antt =====
-- A load that is shared by two callers, and a third caller that starts another beside a running one.
use proton_sdk_rs.Base.{ℕ, ◌≤◌, ◌+◌, ◌<◌, ◌≡◌, refl, String, arith}
use proton_sdk_rs.Base.Maps.{lookup, put, erase}
use proton_sdk_rs.Errors.{Result, ok}
use proton_sdk_rs.SingleFlight.{
  returned, update, Flight, shared, joined, begun, finished, observed, settled, join, begin, finish,
  observe, settle, Reach, here, next, fresh,
}
use proton_sdk_rs.SingleFlight.Loads.{loads_of, count_key, Came}
use proton_sdk_rs.SingleFlight.Shared.{run-Shared}
use proton_sdk_rs.SingleFlight.Race.{IsRunning, run_doubled}

abbrev asked : Flight ℕ
asked = begun fresh 0 "k"

abbrev both : Flight ℕ
both = joined asked 1 "k" 0

asked-Reach : Reach fresh asked
unfolding lookup
asked-Reach = next here (begin fresh 0 "k" refl refl)

both-Reach : Reach fresh both
unfolding begun update lookup put erase
both-Reach = next asked-Reach (join asked 1 "k" 0 refl refl)

abbrev done : Flight ℕ
done = finished both 0 (ok 7)

done-Reach : Reach fresh done
unfolding begun joined update
done-Reach = next both-Reach (finish both 0 (ok 7) (omega arith) refl)

abbrev seen_once : Flight ℕ
seen_once = observed done 0 "k" (ok 7)

seen_once-Reach : Reach fresh seen_once
unfolding begun joined finished update
seen_once-Reach = next done-Reach (observe done 0 "k" 0 (ok 7) refl refl)

abbrev seen_twice : Flight ℕ
seen_twice = observed seen_once 1 "k" (ok 7)

seen_twice-Reach : Reach fresh seen_twice
unfolding begun joined finished observed update
seen_twice-Reach = next seen_once-Reach (observe seen_once 1 "k" 0 (ok 7) refl refl)

abbrev first_returned : Flight ℕ
first_returned = settled seen_twice 0 "k" (ok 7)

first_returned-Reach : Reach fresh first_returned
unfolding begun joined finished observed update
first_returned-Reach = next seen_twice-Reach (settle seen_twice 0 "k" (ok 7) refl)

run-Shared_example :
    ((c : ℕ) (key : String) (result : Result ℕ)
      → first_returned.caller c ≡ returned key result
      → (told : Result ℕ) × Came first_returned key told × (result ≡ shared told))
    × ((key : String)
        → loads_of first_returned.load_key key first_returned.started
          ≤ count_key key first_returned.cleared + 1)
run-Shared_example = run-Shared first_returned-Reach

abbrev asked_again : Flight ℕ
asked_again = begun first_returned 2 "k"

asked_again-Reach : Reach fresh asked_again
unfolding begun joined finished observed settled update lookup put erase
asked_again-Reach = next first_returned-Reach (begin first_returned 2 "k" refl refl)

run_doubled_example :
    (t : Flight ℕ) × Reach asked_again t × IsRunning t "k" 1 × IsRunning t "k" 2 × (1 < 2)
unfolding begun joined finished observed settled update lookup put erase
run_doubled_example = run_doubled 1 3 "k" 1 (ok 7) asked_again-Reach refl refl refl refl
