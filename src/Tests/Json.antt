-- ===== src/Tests/Json.antt =====
-- Runs of the printer and the reader of JSON.
use zygveil.Base.{◌≡◌, refl, true, ok, err, join, count_chars}
use zygveil.Json.{Json, null, bool, int, minus, real, text, arr, obj, nil, cons, end, field}
use zygveil.Json.Print.{dumps}
use zygveil.Json.Parse.{decode_error, skip}
use zygveil.Json.Load.{loads, value}

abbrev sample : Json
sample = obj (field "a" (arr (cons (int 120) (cons null nil))) (field "b" (text "x\ny") end))

dumps-sample : dumps sample ≡ "{\"a\":[120,null],\"b\":\"x\\ny\"}"
unfolding dumps join
dumps-sample = refl

loads-sample : loads " {\"a\": [120 ,null],\"b\":\"x\\ny\" }\n" ≡ ok sample
unfolding loads value count_chars skip
loads-sample = refl

loads_numbers :
    loads "[0,-12,1.5e3,true]"
    ≡ ok (arr (cons (int 0) (cons (minus 12) (cons (real "1.5e3") (cons (bool true) nil)))))
unfolding loads value count_chars skip
loads_numbers = refl

loads_refuses : loads "{\"a\":01}" ≡ err decode_error
unfolding loads value count_chars skip
loads_refuses = refl
