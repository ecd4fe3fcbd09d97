-- ===== src/Panic.antt =====
-- What `BUG()` of include/kernel/panic.h does, and its switch in src/panic.c. A panic does not
-- return, so it is a result of its own here and in Kernel.

-- `enum bug_behavior`.
pub data BugBehavior : Type 0 where
  bug_panic : BugBehavior
  bug_log : BugBehavior

-- `bug_set_behavior` and `bug_get_behavior`, on the static variable.
abbrev pub bug_set_behavior : BugBehavior → BugBehavior → BugBehavior
bug_set_behavior behavior current = behavior

abbrev pub bug_get_behavior : BugBehavior → BugBehavior
bug_get_behavior current = current

pub data Bug : Type 0 where
  panics : Bug
  logs_critical : Bug

-- `BUG()`.
abbrev pub bug : BugBehavior → Bug
bug bug_panic = panics
bug bug_log = logs_critical
