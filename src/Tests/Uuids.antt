-- ===== src/Tests/Uuids.antt =====
-- The print of UUIDs.
use pwned.Base.{length, ◌≡◌, ◌↔◌, refl, false, arith, codes}
use pwned.Uuid.{Uuid, same_uuid, upper_digit, put_hex, print_uuid}
use pwned.Uuid.Print.{print_uuid_lem}

abbrev one : Uuid
one = record { first = 0x0123_4567_89ab_cdef; second = 1 }

abbrev other : Uuid
other = record { first = 0x0123_4567_89ab_cdef; second = 2 }

one_print : print_uuid one ≡ codes "01234567-89AB-CDEF-0123-456789ABCDEF"
unfolding print_uuid put_hex upper_digit
one_print = refl

one-other : same_uuid one other ≡ false
unfolding same_uuid
one-other = refl

print_uuid_lem_example :
    (length (print_uuid one) ≡ 36)
    × ((print_uuid one ≡ print_uuid other) ↔ (one.first ≡ other.first))
print_uuid_lem_example = print_uuid_lem one other (omega arith) (omega arith)
