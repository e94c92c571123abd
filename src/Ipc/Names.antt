-- ===== src/Ipc/Names.antt =====
-- The names of IFLYOSInterface/include/IFLYOSInterface.h that the code uses.
use Prim.Native.Nat.{ℕ}
use sdk_linux.Prelude.Bytes.{Bytes, codes}

abbrev pub interface_current_version : ℕ
interface_current_version = 1

abbrev pub do_register_evt_receiver : Bytes
do_register_evt_receiver = codes "DO_REGISTER_EVT_RECEIVER"

abbrev pub event_recv_addr : Bytes
event_recv_addr = codes "IFLYOS_EVENT_RECV_ADDR"

abbrev pub umbrella_recv_addr : Bytes
umbrella_recv_addr = codes "IFLYOS_UMBRELLA_RECV_ADDR"

abbrev pub do_start : Bytes
do_start = codes "DO_START"

abbrev pub do_stop : Bytes
do_stop = codes "DO_STOP"

abbrev pub evt_stopped : Bytes
evt_stopped = codes "EVT_STOPPED"

abbrev pub evt_custom_directive : Bytes
evt_custom_directive = codes "EVT_CUSTOM_DIRECTIVE"

abbrev pub do_clear_data_then_quit : Bytes
do_clear_data_then_quit = codes "DO_CLEAR_DATA_THEN_QUIT"

abbrev pub do_custom_context : Bytes
do_custom_context = codes "DO_CUSTOM_CONTEXT"

abbrev pub do_custom_event : Bytes
do_custom_event = codes "DO_CUSTOM_EVENT"

abbrev pub evt_factory_reset : Bytes
evt_factory_reset = codes "EVT_FACTORY_RESET"

abbrev pub evt_reboot : Bytes
evt_reboot = codes "EVT_BOOT"

abbrev pub evt_sw_update : Bytes
evt_sw_update = codes "EVT_SW_UPDATE"

abbrev pub evt_sw_update_check : Bytes
evt_sw_update_check = codes "EVT_SW_UPDATE_CHECK"

abbrev pub evt_revoke_authorization : Bytes
evt_revoke_authorization = codes "EVT_REVOKE_AUTHORIZATION"

abbrev pub evt_set_wakeword : Bytes
evt_set_wakeword = codes "EVT_SET_WAKEWORD"

abbrev pub evt_auth_required : Bytes
evt_auth_required = codes "EVT_AUTH_REQUIRED"

abbrev pub evt_auth_token_expired : Bytes
evt_auth_token_expired = codes "EVT_AUTH_TOKEN_EXPIRED"

abbrev pub evt_auth_ok : Bytes
evt_auth_ok = codes "EVT_AUTH_OK"

abbrev pub evt_auth_server_error : Bytes
evt_auth_server_error = codes "EVT_AUTH_SERVER_ERROR"

abbrev pub evt_dialog_thinking : Bytes
evt_dialog_thinking = codes "EVT_DIALOG_THINKING"

abbrev pub evt_dialog_speaking : Bytes
evt_dialog_speaking = codes "EVT_DIALOG_SPEAKING"

abbrev pub evt_dialog_end : Bytes
evt_dialog_end = codes "EVT_DIALOG_END"

abbrev pub evt_vol_changed : Bytes
evt_vol_changed = codes "EVT_VOL_CHANGED"
