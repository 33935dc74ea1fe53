-- ===== src/Examples/Starts.antt =====
-- The program started with a configuration file that is there, and with one that asks for another
-- listener.
use rocks.Base.{ℕ, ◌≡◌, ◌↔◌, refl, [], ◌∷◌, arith, true, some, none}
use rocks.Config.{RocksConfig, OutgoingType, OutgoingConfig}
use rocks.Error.{Result, io, from_description, unsupported_incoming_type}
use rocks.Server.Loop.{Accepts}
use rocks.Server.Main.{Startup, main}
use rocks.Server.Main.Runs.{main_serves}
use rocks.Server.Main.Fails.{Fails, main-Fails}
use rocks.Server.{next_client_impl}
use rocks.Examples.Memory.{plain, here}
use rocks.Examples.Servers.{script, spawned, at_here, incoming_config}

abbrev outgoing_config : OutgoingConfig
outgoing_config = record { outgoing_type = OutgoingType.direct; user = none; listen_addr = none }

abbrev configured : RocksConfig
configured = record { incoming = incoming_config; outgoing = outgoing_config }

abbrev startup : Startup plain ℕ
startup = record {
  open_file = λ path. Result.ok 7;
  read_to_end = λ file. Result.ok (file ∷ []);
  from_slice = λ bytes. Result.ok configured;
}

main_serves_example :
    main startup script at_here none 9
    ≡ Result.ok ((spawned 3, outgoing_config) ∷ (spawned 4, outgoing_config) ∷ [], true)
unfolding next_client_impl
main_serves_example =
    main_serves startup script at_here none 9 {j = record { listen_addr = here; listener = [] }}
      {e = io 24}
      (record { file = 7; bytes = 7 ∷ []; opened = refl; has_read = refl; parsed = refl })
      (record { right_type = refl; right_addr = refl; bound = refl })
      (Accepts.next refl (Accepts.next refl Accepts.none)) refl (omega arith)

main-Fails_example :
    (main startup script at_here (some "a.toml") 9
      ≡ Result.err (from_description unsupported_incoming_type))
    ↔ Fails startup script at_here (some "a.toml") (from_description unsupported_incoming_type)
main-Fails_example =
    main-Fails startup script at_here (some "a.toml") 9 (from_description unsupported_incoming_type)
