-- ===== src/Serialization/Sample.antt =====
-- A library for src/async_cache/serialization.py that keeps trees as they are, and sample values.
use async_task_worker.Base.{String, arith, false, ◌≡◌, refl}
use async_task_worker.Serialization.{
  PyValue, atom, Word, num, list, dict, datetime, uuid, object, nil, cons, end, field, Python,
  MsgPack, Result, ok, error, map_result,
}
use async_task_worker.Serialization.Documented.{Documented, prepare, rebuild}

-- The only atom is None; datetimes and UUIDs stand for themselves.
abbrev pub Value : Type 0
Value = PyValue (Unit {0}) String String

abbrev pub python : Python (Unit {0}) String String
python = record {
  type_name = λ v. "thing";
  str_of = λ v. ok "<thing>";
  isoformat = λ d. d;
  fromisoformat = λ s. ok s;
  uuid_text = λ u. u;
  uuid_of = λ s. ok s;
  equals = λ a n. false;
}

abbrev pub library : MsgPack Value (Unit {0}) String String
library = record { packb = λ hook v. prepare 9 hook v; unpackb = λ hook b. rebuild hook b }

pub map_result-id : (r : Result Value) → r ≡ map_result (λ v. v) r
map_result-id (ok v) = refl
map_result-id (error e) = refl

abbrev pub documented : Documented python library
documented = record {
  limit = 9;
  dump = λ v. v;
  packs = λ hook v. map_result-id (prepare 9 hook v);
  unpacks = λ packing hook v tree h. refl;
  reads_datetime = λ d. refl;
  reads_uuid = λ u. refl;
}

abbrev pub one : Word
one = record { value = 1; small = omega arith }

abbrev pub five : Word
five = record { value = 5; small = omega arith }

abbrev pub point : Value
point = object "Point" "geo" (field "x" (num one) (field "at" (datetime "2024-05-01") end))

abbrev pub reply : Value
reply =
    dict
      (field "id" (uuid "ab-12") (field "points" (list (cons (num five) (cons (atom tt) nil))) end))
