-- ===== src/Serialization/Tests.antt =====
-- src/async_cache/serialization.py on concrete values, with a library that keeps trees as they are.
use async_task_worker.Base.{true, false, ◌≡◌, str_dec, refl, arith}
use async_task_worker.Serialization.{
  type_custom_object, type_string_fallback, type_datetime, num, str, list, dict, datetime, function,
  slotted, opaque, nil, cons, end, field, no_slots, unset, slot, ok, encode, decode, encode_hook,
  encode_with, get_field, is_ok, ◌>>=◌, merge, set_field, present,
}
use async_task_worker.Serialization.Documented.{prepare, rebuild, is_native, pack_parts}
use async_task_worker.Serialization.Sample.{Value, python, library, documented, point, one, five}
use async_task_worker.Serialization.Images.{encodable, unreserved, depth, image, is_reserved}
use async_task_worker.Serialization.Refused.{encode_answers}
use async_task_worker.Serialization.Fallback.{encode-total}
use async_task_worker.Serialization.RoundTrip.{decode-encode, reserved_key_lost}

-- An object comes back as a dictionary.
point_read :
    (encode python library 5 false point >>= decode python library)
    ≡ ok (
        dict (
          field "__type" (str "Point") (
            field "__module"
              (str "geo")
              (field "x" (num one) (field "at" (datetime "2024-05-01") end)))))
unfolding encode decode encode_hook encode_with prepare is_native pack_parts rebuild str_dec
    get_field merge set_field
point_read = refl

function_refused : is_ok (encode python library 5 false (list (cons (function "f") nil))) ≡ false
unfolding encode encode_hook encode_with prepare is_native pack_parts
function_refused = refl

-- A slot that is not set is left out, and a value that cannot be packed is shown as a text.
slots_fallback :
    encode python library 5 true (slotted "S" "m" (unset "a" (slot "b" (opaque "set") no_slots)))
    ≡ ok (
        dict (
          field "__type_code" (num type_custom_object) (
            field "type" (str "S") (
              field "module" (str "m") (
                field "data"
                  (dict (
                    field "b"
                      (dict (
                        field "__type_code"
                          (num type_string_fallback)
                          (field "type" (str "thing") (field "data" (str "<thing>") end))))
                      end))
                  end)))))
unfolding encode encode_hook encode_with prepare is_native pack_parts present
slots_fallback = refl

encode_answers_example :
    is_ok (encode python library 9 false (list (cons point (cons (opaque "set") nil))))
    ≡ encodable (list (cons point (cons (opaque "set") nil)))
unfolding depth
encode_answers_example =
    encode_answers documented 9 (list (cons point (cons (opaque "set") nil))) (omega arith)
      (omega arith)

encode-total_example :
    (b : Value) × (encode python library 1 true (list (cons (function "f") (cons point nil)))
      ≡ ok b)
unfolding depth
encode-total_example =
    encode-total documented 1 (list (cons (function "f") (cons point nil))) (λ v. ("<thing>", refl))
      (omega arith) (omega arith)

decode-encode_example :
    (b : Value) × (encode python library 9 false point ≡ ok b)
    × (decode python library b ≡ ok (image point))
unfolding depth encodable unreserved is_reserved str_dec
decode-encode_example = decode-encode documented 9 false point refl refl (omega arith) (omega arith)

reserved_key_lost_example :
    (b : Value) × (encode python library 9 false
        (dict (field "__type_code" (num type_datetime) (field "x" (num five) end)))
      ≡ ok b)
    × (is_ok (decode python library b) ≡ false)
unfolding depth encodable unreserved get_field is_reserved str_dec
reserved_key_lost_example =
    reserved_key_lost documented 9 false (field "x" (num five) end) refl refl refl (omega arith)
      (omega arith) (omega arith) (omega arith)
