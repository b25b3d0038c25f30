-- ===== src/Lib.antt =====
-- ASCII Serial Com: framed messages over a serial line, on microcontrollers and hosts.
--
-- The parts of the program and the files that model them:
--
--   asc_exception.h                        Prelude/Exception: the error codes, and computations on
--                                          a state that may throw
--   circular_buffer.c                      CircularBuffer: the struct and the operations on one
--                                          element; Search, Block, Fd and Frames: the others
--   ascii_serial_com.c                     Asc: the interface, the checksum and sending;
--                                          Asc/Receive: get_message_from_input_buffer;
--                                          Hex: the conversions to and from digits
--   crc_16_dnp_tbl4bit.c, _crcmod.c        Crc/Tbl4bit, Crc/Crcmod
--   crc_16_dnp_bbb.c, _bbf.c               Crc/Bbb, Crc/Bbf; Crc/FastWidth: their uint_fast16_t
--   millisec_timer.c                       MillisecTimer
--   ascii_serial_com_register_block.c      Registers: what the two share; Registers/Block
--   ascii_serial_com_register_pointers.c   Registers/Pointers
--   ascii_serial_com_device.c              Device
--   asc_helpers.h                          Device/Polling
--   circular_buffer_io_fd_poll.c           IoFdPoll
--   native/                                Native: what the programs share; RegisterDevice,
--                                          Loopback and Profiler: one program each
--   arm/, avr/, riscv/neorv32/             Firmware: main loops and interrupts; its child modules:
--                                          one kind of program each
--   native/, arm/ and avr/ loopback        Echo: a message taken in and sent back
--
-- Bytes come into the input ring of an `Asc`, get_message_from_input_buffer takes messages from
-- there, a Device hands them to the handler for their command, and replies go to the output ring.
-- Functions keep the names of the source without its prefixes (circular_buffer_push_back_uint8
-- is CircularBuffer.push_back); a struct is a record with its fields.
--
-- A function that takes a pointer to a struct is a computation `M S A` on the struct: it returns an
-- outcome and the struct. An outcome is `ok`, a `throw` of an asc_exception, or a `fault`, an access
-- outside an array. What was written before a throw stays written, as with the longjmp of
-- CException. The model stops at a fault; the C program's behaviour is undefined from there.
--
-- `size_t` has 64 bits, as on the hosts; its arithmetic wraps around (Prelude/SizeT). It has 32 bits
-- on ARM and RISC-V and 16 on AVR. The programs there have buffers of 64 bytes: no sum of indices
-- and sizes reaches 2^16, and a difference that wraps around is larger than a buffer at each of these
-- widths. Whether `char` is signed is an argument where it matters (CharSign in CircularBuffer/Frames).
--
-- CircularBuffer/Inv has the representation invariant, Refine the sequence that a ring holds and
-- the operations on it, Becomes and Pushes the same for rings that hold a known sequence, Reach the
-- rings that calls can reach; Asc/Frame has the form of a message on the line, Asc/Receive/Line and
-- Parsed the parser's way through it; Crc/Register the shift register behind the checksums;
-- Registers/Guarded what the write masks guard; Bits the laws of the operations on bits, and
-- Prelude/Invariant what carries an invariant through a computation.
--
-- Main loops are recursion on the list of what the system or the hardware answers in each round;
-- other loops are structural recursion on the number of rounds to go, and three are on fuel. The
-- recursion of remove_front_unfinished_frames has one more than the size of the buffer: each round
-- but the last removes at least one byte. The loop over the bits in Crc/Bbf has 9: its test fails
-- for the ninth mask. The digits of a number in Prelude/Decimal have the number itself: each round
-- divides it by ten.
--
-- Not modelled: what the programs and the print functions write to stdout and stderr, the set-up of
-- hardware, the blocking UART macros, programs that use no part of the library, and third-party
-- code (CException, Unity, CMock). poll, read, write, fopen and strtoul are arguments of the
-- functions that call them.
pub mod Prelude
pub mod Bits
pub mod CircularBuffer
pub mod Hex
pub mod Crc
pub mod Registers
pub mod Device
pub mod IoFdPoll
pub mod Tests
pub mod MillisecTimer
pub mod Asc
pub mod Echo
pub mod Native
pub mod Firmware
