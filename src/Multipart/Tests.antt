-- ===== src/Multipart/Tests.antt =====
-- Bodies through the parser of Cutelyst/multipartformdataparser.cpp.
use cutelyst.Common.{
  suc, length-take, length-drop, Bytes, [], ◌∷◌, ◌++◌, false, some, codes, length, take, drop, All,
  ◌≡◌, ◌≢◌, refl, arith,
}
use cutelyst.Common.Int.{ℤ, pos, negsuc}
use cutelyst.Multipart.{Device, returned, overrun, out_of_fuel, execute}
use cutelyst.Multipart.Boundary.{index_in, boundary_of, boundary_loop}
use cutelyst.Multipart.Lines.{IsField}
use cutelyst.Multipart.Parts.{Part, body_text, IsPart, uploads_of, execute-parts}
use cutelyst.Multipart.Reads.{IsReadable, first_read, execute-ne-out_of_fuel, execute-overrun}

-- A device over some bytes that gives as much as it is asked for.
abbrev prefix : ℤ → Bytes → Bytes
prefix (pos n) bytes = take n bytes
prefix (negsuc n) bytes = []

abbrev memory : Bytes → Device
memory bytes = record {
  is_sequential = false;
  size = length bytes;
  read = λ position n. some (prefix n (drop position bytes));
}

abbrev a_part : Part
a_part = record { fields = (codes "a", codes "b") ∷ []; contents = codes "xy" }

abbrev empty_part : Part
empty_part = record { fields = []; contents = [] }

abbrev a_boundary : Bytes
a_boundary = codes "--B"

abbrev two_parts : Bytes
two_parts = body_text a_boundary (a_part ∷ empty_part ∷ []) (codes "\n")

one-IsField : IsField (codes "a", codes "b")
one-IsField = (omega arith, omega arith, refl)

both-IsPart : All (IsPart a_boundary) (a_part ∷ empty_part ∷ [])
unfolding index_in
both-IsPart = (((one-IsField, tt), refl), ((tt, refl), tt))

execute-parts_example :
    execute 1 (memory two_parts) 1024 a_boundary
    ≡ returned (uploads_of a_boundary 3 (a_part ∷ empty_part ∷ []))
execute-parts_example =
    execute-parts a_boundary (a_part ∷ empty_part ∷ []) (codes "\n") (memory two_parts) 0 1024
      (λ e. cc) both-IsPart refl refl

memory-IsReadable : (bytes : Bytes) → IsReadable (memory bytes)
memory-IsReadable bytes position n chunk inside got =
    let same : take (suc n) (drop position bytes) ≡ chunk = ground arith in
    rw (← same)
      (omega (arith, length-take {0} (suc n) (drop position bytes), length-drop {0} position bytes))

execute-ne-out_of_fuel_example :
    execute (suc (length two_parts)) (memory two_parts) 1024 a_boundary ≢ out_of_fuel
execute-ne-out_of_fuel_example =
    execute-ne-out_of_fuel (memory two_parts) 1024 a_boundary (omega arith) (omega arith)
      (memory-IsReadable two_parts)

abbrev long_boundary : Bytes
long_boundary = codes "--boundary"

abbrev cut_off : Bytes
cut_off = first_read long_boundary ((codes "a", codes "b") ∷ []) b'x' ++ codes "yz"

execute-overrun_example : execute 2 (memory cut_off) 21 long_boundary ≡ overrun
execute-overrun_example =
    execute-overrun long_boundary ((codes "a", codes "b") ∷ []) b'x' b'y' (codes "z")
      (memory cut_off) 0 21 (λ e. cc) (one-IsField, tt) (omega arith) refl refl refl

-- A boundary between quotes, up to the second of them.
boundary_of-quoted :
    boundary_of (codes "multipart/form-data; boundary=\"a b\"; x=y") ≡ some (codes "--a b")
unfolding boundary_of boundary_loop index_in
boundary_of-quoted = refl
