-- ===== src/Echo.antt =====
-- The loopback programs' middle part: a message taken from the input buffer is put into the output
-- buffer. `Receiver` has the interface and the program's variables for a message.
pub mod Echoed
use ascii_serial_com_c.Prelude.{Bool, not, ◌==◌, M, ◌>>=◌, ◌>>◌, pure, gets, when, ok}
use ascii_serial_com_c.CircularBuffer.{is_empty}
use ascii_serial_com_c.Asc.{put_message_in_output_buffer}
use ascii_serial_com_c.Asc.Receive.{Message, Receiver, on_asc, get_message_from_input_buffer}

-- `put_message_in_output_buffer(&asc, ascVersion, appVersion, command, dataBuffer, dataLen)`
unfoldable pub send_back : M Receiver (Unit {0})
send_back rx =
    let m = rx.message in
    on_asc (put_message_in_output_buffer m.asc_version m.app_version m.command m.bytes m.data_len)
      rx

-- `if (command != '\0')`
unfoldable pub send_back_message : M Receiver (Unit {0})
unfolding send_back
send_back_message rx = when (not (rx.message.command == 0)) send_back rx

-- `if (!circular_buffer_is_empty_uint8(asc_in_buf)) { get_message; if (command != '\0') put_message; }`
unfoldable pub echo : M Receiver (Unit {0})
unfolding send_back_message
echo = do
  empty ← gets (λ rx. is_empty rx.asc.in_buf)
  when (not empty) (do get_message_from_input_buffer; send_back_message)
