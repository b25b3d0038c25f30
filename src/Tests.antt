-- ===== src/Tests.antt =====
-- Data for the witnesses: rings that start anywhere in their storage, and a message.
mod Ring
mod Message
mod Timer
mod Device
mod Io
mod Native
mod Firmware
mod Damaged
use ascii_serial_com_c.Prelude.{ℕ, ◌<◌, List, [], ◌∷◌, replicate, arith, refl, false}
use ascii_serial_com_c.CircularBuffer.{CircularBuffer}
use ascii_serial_com_c.CircularBuffer.Inv.{IsValid}
use ascii_serial_com_c.CircularBuffer.Pushes.{HoldsAt}
use ascii_serial_com_c.Asc.{Asc}
use ascii_serial_com_c.Asc.Frame.{IsSendable}

-- An empty ring of 64 bytes that starts at that index.
abbrev pub ring_at : ℕ → CircularBuffer
ring_at start = record {
  capacity = 64;
  size = 0;
  i_start = start;
  i_stop = start;
  buffer = replicate 64 0x40;
}

pub ring_at-HoldsAt : (start : ℕ) → start < 64 → HoldsAt 64 start [] (ring_at start)
ring_at-HoldsAt start h = record {
  holds = record {
    valid = record {
      pow = (6, refl);
      shape = record {
        small = omega arith;
        positive = omega arith;
        storage = omega arith;
        start_in = h;
        size_in = omega arith;
        stop_at = ground arith;
      };
    };
    held = refl;
    same_capacity = refl;
  };
  same_start = refl;
}

-- Three bytes that wrap around in a storage of four.
abbrev pub wrapped : CircularBuffer
wrapped = record { capacity = 4; size = 3; i_start = 2; i_stop = 1; buffer = 3 ∷ 0 ∷ 1 ∷ 2 ∷ [] }

pub wrapped-IsValid : IsValid wrapped
wrapped-IsValid = record {
  pow = (2, refl);
  shape = record {
    small = omega arith;
    positive = omega arith;
    storage = omega arith;
    start_in = omega arith;
    size_in = omega arith;
    stop_at = refl;
  };
}

abbrev pub asc : Asc
asc = record {
  in_buf = ring_at 60;
  out_buf = ring_at 10;
  send_stream_frame_counter = 0;
  receive_stream_frame_counter = 0;
  receive_stream_frame_counter_initialized = false;
  ignore_crc_mismatch = false;
}

abbrev pub payload : List ℕ
payload = b'a' ∷ b'b' ∷ []

pub payload-IsSendable : IsSendable b'0' b'1' b'm' payload
payload-IsSendable = ground arith
