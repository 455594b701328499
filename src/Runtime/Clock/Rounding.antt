-- ===== src/Runtime/Clock/Rounding.antt =====
-- How far a date is from the instant that was asked for.
