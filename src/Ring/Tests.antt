-- ===== src/Ring/Tests.antt =====
-- Tests of the circular buffer, and its theorems at concrete inputs.
use owl.Base.{◌≡◌, refl, arith, true, false, [], ◌∷◌}
use owl.Ring.{CircularBuf, size, put, get}
use owl.Ring.Queue
use owl.Ring.Refine.{IsValid, contents, put_refines, get_refines}

-- Three slots that hold 7, then 8, across the end of the array.
abbrev wrapped : CircularBuf
wrapped = record { buffer = 8 ∷ 0 ∷ 7 ∷ []; head = 1; tail = 2; max = 3; full = false }

abbrev filled : CircularBuf
filled = record { buffer = 8 ∷ 9 ∷ 7 ∷ []; head = 2; tail = 2; max = 3; full = true }

wrapped-IsValid : IsValid wrapped
wrapped-IsValid = ground arith

filled-IsValid : IsValid filled
filled-IsValid = ground arith

put-wrapped : put wrapped 9 ≡ filled
unfolding put
put-wrapped = refl

put-filled : contents (put filled 5) ≡ 8 ∷ 9 ∷ 5 ∷ []
unfolding put size
put-filled = refl

put_refines_example :
    IsValid (put filled 5) × (contents (put filled 5) ≡ Queue.put 3 (contents filled) 5)
put_refines_example = put_refines filled 5 filled-IsValid

get_refines_example :
    let (r, c) = get wrapped false in
    IsValid c × ((r, contents c) ≡ Queue.get (contents wrapped) false)
get_refines_example = get_refines wrapped false wrapped-IsValid
