-- ===== src/TimingCommand.antt =====
-- util/analysis/objecttiming: the program that follows an audit log and prints the records of
-- the finished actions. Its own copies of constants.go, create.go, objinfo.go, pvcpod.go, scale.go,
-- types.go, helpers.go and parsetime.go have the text of pkg/objecttiming, so that their functions
-- are taken from ObjectTiming.
pub mod Lines
pub mod Tail
pub mod Options
pub mod Program
