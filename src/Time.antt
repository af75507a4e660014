-- ===== src/Time.antt =====
-- Instants as the source has them: `Date.parse` of a text, in milliseconds. ECMAScript leaves the
-- texts that it accepts beyond its own format to the engine, so the parser is a parameter. It
-- answers `none` for NaN, and a time counts from the earliest instant that a Date can hold: the
-- code only compares instants and subtracts an earlier one from a later one.
use agx.Prelude.{ℕ, String, Option}

abbrev pub DateParse : Type 0
DateParse = String → Option ℕ

abbrev pub minute : ℕ
minute = 60000
