-- ===== src/Lib.antt =====
-- Verification of the nRF52840 Unifying firmware: the application under app/src.
--
-- The firmware bridges text commands, from USB CDC or from a UART, to a Logitech Unifying
-- receiver. The tasks of main.rs share flags, queues and signals. The receive task passes the
-- bytes of the UART to the parser of uart_link.rs, which numbers and checks a line, and queues it
-- as a request; a session over USB CDC queues its lines too, or takes a firmware image itself.
-- The worker takes the requests one by one, while no other owner of the radio excludes them: a
-- firmware upload over the UART goes to uart_ota.rs, any other command to
-- handle_unifying_command, which drives the radio device, stores pairings through storage.rs and
-- formats its replies; keymap.rs gives the keys of a text. The transmit task wraps a reply by
-- uart_link.rs again. esb_radio.rs is the radio below the device.
--
-- The parts, with the definitions named as in the source:
--   Prelude: lists, Boolean tests, buffers, text and bits that the parts share. `Run` is code
--   that may panic, by an index or a slice out of range.
--   Flash: the NOR flash below storage.rs (embassy_nrf::nvmc, not part of the repository) as an
--   interface with its documented behaviour, and an array of cells that meets it.
--   Storage: app/src/storage.rs. Log and Page give a page as a list of records; Codec, Profiles,
--   Isolation, Clear, Active and Apart hold what is proved of the operations, and Catalog refines
--   them to a table.
--   UartLink: app/src/uart_link.rs, and `feed`, the loop of app/src/main.rs over received bytes.
--   Stream refines the parser to a machine on values, Resync is about the borders of lines,
--   Grammar about `validate`, Number and Command about numbered lines.
--   UartOta: app/src/uart_ota.rs. Image is the storage behind the trait and the CRC over blocks,
--   Upload the upload without its storage, Chunk and Handle the refinement, Session a whole
--   upload.
--   UartSmoke: app/src/uart_smoke.rs, with its report in Report, and in Diagnostic the tasks of
--   app/src/main.rs with the feature uart-smoke. Lines is about whole lines, Ping about the ping
--   frames, Traffic about what is counted.
--   Keymap: app/src/keymap.rs, and Layout, a US keyboard to compare it with.
--   Reply: write_u32, hex_byte and the formats of app/src/main.rs. Decimal, Writing and Sequence
--   hold their texts, Formats what each format leaves in its buffer.
--   Device: the device of the submodule rust-unifying, which is not part of the repository, as an
--   interface.
--   Unifying: UnifyingState and the key reports of app/src/main.rs, in Commands and Handle the
--   commands of handle_unifying_command; Loops, Answers, Links, Keys and Total are about the
--   answer to every line, Switch and Restore about the pairing that a command leaves, Boot about
--   the pairing that main restores.
--   Tasks: the statics of app/src/main.rs with ReplySink; in Usb UsbLifecycle and control_fut, in
--   Worker and Accept worker_fut and poll_radio, in Link uart_rx_fut and uart_tx_fut. System is
--   the step relation of all tasks: a step is a stretch of one task from a wait to its next, with
--   the number of times that it damages the UART. Start is the state behind main's start. Keeps,
--   Follows, Served, Invariant, Damage, Ownership and Owned are about any steps; Handover is about
--   the control loop and the worker, and Replies, Exclusion, Transmit and Schedule about one task.
--   Cdc: serial_fut of app/src/main.rs. Command holds parse_ota_command and Transfer the replies
--   with write_reply. Staging and Bounds are about any packet, Received, Upload and Session about
--   an image.
--   EsbRadio: app/src/esb_radio.rs over the events of the radio. Packets is about the buffers,
--   Registers about the addresses.
-- Each part has its witnesses and runs in its module Tests.
--
-- Numbers are natural numbers; where the source wraps around, the remainder by 2 ^ w is written
-- out. A loop over a range is recursion on the number of rounds that are left: the slots of a
-- page, the blocks of an image, the attempts of a command or of a transmission. The digits of
-- write_u32 have eleven rounds, since the buffer of ten digits ends the loop before. The worker's
-- loop on its deadline reads the clock at each test; it has as many rounds as the clock has
-- milliseconds at the first test and one more, which are enough where the clock moves by less than
-- eight from test to test. The loop of write_reply has as many rounds as the text has bytes, where each sends at least one.
-- The loop over the UART's writes runs over the results of the writes, and may be left waiting
-- for the next.
--
-- Not modelled: the executor, timers, channels and drivers of embassy and the bootloader's
-- updater, which are not part of the repository: a channel is a list, the updater an interface.
-- The set-up of pins and drivers in main, and the timer of the pings of the feature uart-smoke.
-- In esb_radio.rs the sequence of register accesses within a transmission, the constants of
-- configure_unifying and the delays; unifying_hal.rs, which passes calls to other crates. The
-- bootloader, the build scripts and the tools. A session over CDC may end at any step, whatever
-- ends it; a write to the host that fails has no effect in the model. Delays between attempts
-- have none either.
pub mod Prelude
pub mod Flash
pub mod Storage
pub mod UartLink
pub mod UartOta
pub mod UartSmoke
pub mod Keymap
pub mod Reply
pub mod Device
pub mod Unifying
pub mod Cdc
pub mod EsbRadio
pub mod Tasks
