-- ===== src/Umbrella/Startup.antt =====
-- `main` of IFLYOSUmbrella.cpp up to its loop: the environment, the version and the handlers.
use sdk_linux.Prelude.{Option, none, some, List, [], ◌∷◌, if◌then◌else◌}
use sdk_linux.Prelude.Int.{ℤ, pos}
use sdk_linux.Prelude.Bytes.{Bytes, codes}
use sdk_linux.Ipc.Names.{do_start, do_stop, evt_custom_directive}
use sdk_linux.Ipc.Text.{atoi}
use sdk_linux.Ipc.State.{Sendto, initial}
use sdk_linux.Ipc.Register.{is_current}
use sdk_linux.Ipc.Init.{Os, is_zero, umbrella_init, register_all}
use sdk_linux.Umbrella.{
  Handler, registeration_handler, do_start_handler, do_stop_handler, custom_directive_handler,
  Umbrella,
}

-- The static strings that `main` fills from the environment.
pub record Config : Type 0 where
  pub ipc_version : ℤ
  pub log_level : Bytes
  pub exe_path : Bytes
  pub config_path : Bytes
  pub mic_fifo_path : Bytes

-- `main` returns 0 at the first variable that is missing, and where the version is another one;
-- only the log level has a default.
unfoldable pub read_config : (Bytes → Option Bytes) → Option Config
read_config getenv = elim (getenv (codes "IFLYOS_ENV_IPC_VERSION")) [
  | none ↦ none
  | some version ↦ elim (getenv (codes "IFLYOS_ENV_EXE_PATH")) [
    | none ↦ none
    | some exe ↦ elim (getenv (codes "IFLYOS_ENV_CONFIG_PATH")) [
      | none ↦ none
      | some config ↦ elim (getenv (codes "IFLYOS_ENV_MIC_FIFO_PATH")) [
        | none ↦ none
        | some fifo ↦
            if is_current (atoi version)
            then some (record {
              ipc_version = atoi version;
              log_level = elim (getenv (codes "IFLYOS_ENV_LOG_LEVEL")) [
                | none ↦ codes "DEBUG5"
                | some level ↦ level
              ];
              exe_path = exe;
              config_path = config;
              mic_fifo_path = fifo;
            })
            else none
      ]
    ]
  ]
]

-- `argv` of the `execl` in the forked child.
unfoldable pub exec_args : Config → List Bytes
exec_args c = c.exe_path ∷ c.config_path ∷ c.mic_fifo_path ∷ c.log_level ∷ []

-- The three calls of `IFLYOS_InterfaceRegisterHandler`.
unfoldable pub own_handlers : List (Bytes × Option Handler)
own_handlers =
    (do_start, some do_start_handler)
    ∷ (do_stop, some do_stop_handler)
    ∷ (evt_custom_directive, some custom_directive_handler)
    ∷ []

-- The process at the head of its loop; `none` if `IFLYOS_InterfaceUmberllaInit` failed.
unfoldable pub boot : Sendto → Os → Config → Option Umbrella
unfolding umbrella_init register_all own_handlers
boot kernel os c =
    let (ipc, ret) = umbrella_init kernel os registeration_handler initial in
    if is_zero ret
    then some (record {
      ipc = register_all ipc own_handlers;
      ipc_version = c.ipc_version;
      iflyos_pid = pos 0;
      queue = [];
      monitors = 0;
      children = 0;
      zombies = 0;
      signals = [];
    })
    else none
