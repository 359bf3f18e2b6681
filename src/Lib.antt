-- ===== src/Lib.antt =====
-- embedded_pg, a study system of a few Raspberry Pis: each keeps a schedule of subjects, tells the
-- others over a mesh network what is being studied, and shows what they study.
--
-- The parts and how they interact. studysys/schedule.c is the program that the user works with: its
-- menu lists, changes and deletes entries of the file schedule_info.txt, and finds the subject of the
-- present time. studysys/comm.c packs that subject into a packet, studysys/recognizer.c sends it to
-- the devices in reach, which studysys/devinfo.c finds by the system call of kernel/parsebat.c on the
-- output of `batctl`, and studysys/receiver.c puts the packets that come on a list, which the menu
-- shows. studysys/bright_control.c keeps how bright the light is to be for each subject, and asks the
-- process of the light and that of ultrasonic_wave/ultrasonic_wave.c, which it finds in /proc, for
-- what they do and know. The latter watches by ultrasound whether somebody sits at the desk, starts
-- and ends the study system, switches the light and counts the seconds.
--
-- Base: names, lists, integers and the ways in which a run ends (Base/Outcome), and a generic
--   exchange sort (Base/Exchange). Cstring and Stdio: what is used of C's strings, scanf and printf.
-- Terminal: myflush, getch and the questions of studysys/schedule.c.
-- Schedule: include/schedule.h and studysys/schedule.c. Schedule/Entry is struct schedule,
--   Schedule/Align re_align, Schedule/File txt_read and txt_write, Schedule/Show check_sched and
--   check_sched_date, Schedule/Register register_sched, Schedule/Delete delete_sched,
--   Schedule/Change change_sched and Schedule/Current cur_subject and output_schedtime.
--   Schedule/Session is what a command changes, Schedule/Loads what it finds when it has read the
--   file. Menu: the questions of menu_sel and menu_sched, and the commands behind the menus.
-- Parsebat: kernel/parsebat.c. Parsebat/Reader has its static variables and getchar_from_fd,
--   Parsebat/Parse the system call, Parsebat/Flat the same parser on a text that is all there.
-- Devinfo: studysys/devinfo.c. Comm: studysys/comm.c and include/comm.h, in Comm/Init with the start
--   of the program. Receiver: studysys/receiver.c, and print_other_infos of studysys/schedule.c.
-- Recognizer: studysys/recognizer.c; Recognizer/Delivery follows a packet to the list of another
--   device. Process: get_process_id of studysys/bright_control.c and ultrasonic_wave.c.
-- Bright: studysys/bright_control.c and include/bright_control.h, with the file of the brightness, and
--   in Bright/Light the other processes and the menu. Stdio/Lines is fgets, Stdio/Decimal `%d`.
-- Ultrasonic: ultrasonic_wave/ultrasonic_wave.c. A Watch is the variables of its main and of its
--   handler, with the clock and the actions; an Event is a measurement or a signal, and Reach the
--   states that a run comes to.
-- Tests: runs and applications at concrete inputs.
--
-- State. A command is a function from its arrays and a Session (the file, the input, the screen) to
-- an Outcome: the state after it, or `fault` for undefined behaviour, `hang` for a loop that never
-- ends, `stop` for a failed assert. An array is the list of its elements, with all its slots; one
-- that is not initialised is an argument. Strings are the bytes before their NUL. The static
-- variables of the parser are a record, and sys_read is the list of what its calls give.
--
-- Fuel. Some loops take fuel, and run out of it as `starved`. A question that is asked again takes
-- one unit a round, and each round that does not repeat for ever reads a byte at least; the loops
-- that skip in the system call take one unit a byte. So do get_subject_bright, one unit a row, and
-- menu_sched, one unit a round. All get one more than there are bytes to come, which is enough.
-- The menu of the brightness can go on for ever, so its fuel is an argument.
--
-- Not modelled: the locks, and the setting up of the sockets. The calls of the operating system
-- (sockets, pipe, fork, exec, the interfaces, the time, the terminal's modes), byte order and
-- `batctl` are arguments. The lines that only ask, rule or clear the screen, and the log, are left
-- out. Numbers that only count what an array holds are natural numbers, as no array has more
-- elements than an int counts.
pub mod Base
pub mod Cstring
pub mod Stdio
pub mod Terminal
pub mod Schedule
pub mod Parsebat
pub mod Devinfo
pub mod Comm
pub mod Receiver
pub mod Recognizer
pub mod Menu
pub mod Process
pub mod Bright
pub mod Ultrasonic
pub mod Tests
