-- ===== src/Examples/Alone.antt =====
-- The test kernel with its six suites, started with "ktest_run=alloc_tests" and without boot
-- arguments.
