-- ===== src/Tests/Locks.antt =====
-- The status lock of a concrete session.
use ignibyte_bridge.Prelude.{refl, none, some, [], ◌∷◌, codes, Bytes}
use ignibyte_bridge.Session.World.{SessionMetadata, World}
use ignibyte_bridge.Session.Metadata.{current}
use ignibyte_bridge.Session.Start.{new_run}
use ignibyte_bridge.Session.Locking.{
  Section, marking, promoting, Plan, plan, outside, is_inside, System, carry_out, Steps, here, next,
  asks, acquires, loads, finishes, is_start, starts_of,
}
use ignibyte_bridge.Session.Locking.Serial.{Serial, Steps-Serial}
use ignibyte_bridge.Session.Locking.Restart.{started}
use ignibyte_bridge.Tests.Codec.{codec}
use ignibyte_bridge.Tests.Runs.{run, world, shell_split}

abbrev web : Bytes
web = codes "web"

abbrev idle : System
idle = record { world = world run; lock = none; phase = λ i. outside }

abbrev stop : Section
stop = marking none (some 1) (some 3)

-- Process 0 marks the run while process 1, which is to publish it, waits; then process 1 has its turn.
abbrev left : Plan
left = plan web stop (world run) (current codec (world run) web)

abbrev after_stop : World
after_stop = carry_out codec web left (world run)

abbrev late : Plan
late = plan web (promoting 3) after_stop (current codec after_stop web)

abbrev story : (t : System) × Steps codec web idle t
story = (
  _,
  next
      (next
        (next
          (next
            (next
              (next (next (next here (asks 0 stop refl)) (acquires 0 stop refl refl))
                (asks 1 (promoting 3) refl))
              (loads 0 stop refl))
            (finishes 0 stop left refl))
          (acquires 1 (promoting 3) refl refl))
        (loads 1 (promoting 3) refl))
      (finishes 1 (promoting 3) late refl),
)

Steps-Serial_example : Serial codec web (world run) 0 (carry_out codec web late after_stop)
unfolding is_start starts_of is_inside
Steps-Serial_example =
    Steps-Serial codec web idle story.0 (λ i. refl) story.1
      ((((((((tt, λ e. cc), λ e. cc), λ e. cc), λ e. cc), λ e. cc), λ e. cc), λ e. cc), λ e. cc)

-- Every write succeeds.
abbrev sound : System
sound = record {
  world = record (world run) { write_fault = λ n. none };
  lock = none;
  phase = λ i. outside;
}

abbrev restarted : World
restarted =
    started codec web shell_split (codes "/") (codes "sh") none none 0 none (some 1) sound.world

abbrev fresh_run : SessionMetadata
fresh_run = new_run web (codes "/") (codes "sh" ∷ []) 4 none none 107
