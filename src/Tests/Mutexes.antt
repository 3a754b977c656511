-- ===== src/Tests/Mutexes.antt =====
-- locks.go with two goroutines.
use go_adcore.Common.{ℕ, false, true, [], ◌∷◌, ◌≡◌, ◌≤◌, ◌+◌, ◌*◌, ◌⊎◌, refl}
use go_adcore.Bytes.{codes, equal}
use go_adcore.Locks.Emptying.{idle_keyed_mutex_size}
use go_adcore.Locks.{
  idle, entered, locked, unlocked, left, start, later, KeyedMutex, new_keyed_mutex, enter, leave,
  size, set_locked, holding, waiting, all_idle, System, Reach,
}
use go_adcore.Maps.{lookup, delete_key}
use go_adcore.Locks.Draining.{work, stay, onward, CanMove, keyed_mutex_drains}
use go_adcore.Locks.Exclusion.{keyed_mutex_excludes}

abbrev one_waits : KeyedMutex
one_waits = (enter (set_locked (enter new_keyed_mutex (codes "x")).1 0 true) (codes "x")).1

-- two goroutines on one key share its entry, and the last to leave deletes it
sizes :
    (size one_waits ≡ 1)
    × (size (leave one_waits (codes "x") 0) ≡ 1)
    × (size (leave (leave one_waits (codes "x") 0) (codes "x") 0) ≡ 0)
    × (size (enter one_waits (codes "y")).1 ≡ 2)
unfolding size enter leave lookup delete_key set_locked equal
sizes = (refl, refl, refl, refl)

keyed_mutex_excludes_example :
    ¬ Reach 2
      (record { mutex = one_waits; threads = holding (codes "x") 0 ∷ holding (codes "x") 0 ∷ [] })
keyed_mutex_excludes_example = keyed_mutex_excludes 2 one_waits (codes "x") 0 0 [] [] []

abbrev entered_once : KeyedMutex
entered_once = (enter new_keyed_mutex (codes "x")).1

abbrev address : ℕ
address = (enter new_keyed_mutex (codes "x")).0

entry_is_free : (entered_once.heap address).locked ≡ false
unfolding enter lookup
entry_is_free = refl

abbrev after_cycle : KeyedMutex
after_cycle =
    leave (set_locked (set_locked entered_once address true) address false) (codes "x") address

-- one goroutine locks and unlocks
cycle : Reach 1 (record { mutex = after_cycle; threads = idle ∷ [] })
cycle =
    later
      (later
        (later (later start (entered new_keyed_mutex (codes "x") [] []))
          (locked entered_once (codes "x") address [] [] entry_is_free))
        (unlocked (set_locked entered_once address true) (codes "x") address [] []))
      (left (set_locked (set_locked entered_once address true) address false) (codes "x") address []
        [])

idle_keyed_mutex_size_example : size after_cycle ≡ 0
idle_keyed_mutex_size_example = idle_keyed_mutex_size 1 1 after_cycle cycle

abbrev one_waiting : System
one_waiting = record { mutex = entered_once; threads = waiting (codes "x") address ∷ [] }

abbrev one_holding : System
one_holding = record {
  mutex = set_locked entered_once address true;
  threads = holding (codes "x") address ∷ [];
}

keyed_mutex_drains_example :
    (1 + work one_holding ≡ work one_waiting)
    × (work one_waiting ≤ 3 * 1)
    × (((one_holding.threads ≡ all_idle 1) × (work one_holding ≡ 0) × (size one_holding.mutex ≡ 0))
        ⊎ CanMove one_holding)
keyed_mutex_drains_example =
    keyed_mutex_drains 1 1 one_waiting one_holding
      (later start (entered new_keyed_mutex (codes "x") [] []))
      (onward stay (locked entered_once (codes "x") address [] [] entry_is_free) refl)
