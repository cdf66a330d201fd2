-- ===== src/Services/CacheKeys.antt =====
-- Backend/include/services/image_cache_key.h: the keys under which answers are cached.
use text2image.Base.{
  ℕ, zero, suc, ◌+◌, ◌/◌, ◌%◌, ℤ, pos, negsuc, ltb, leb_ℤ, ltb_ℤ, [], ◌∷◌, ◌++◌, Text, bytes,
  if◌then◌else◌,
}
use text2image.Models.TaskStatus.{TaskStatus, status_to_string}

-- The decimal digits; a number has at most as many as its own value and one.
unfoldable pub digits : ℕ → ℕ → Text
digits zero n = []
digits (suc fuel) n =
    let rest = digits fuel (n / 10) in
    if ltb n 10 then (b'0' + n) ∷ [] else rest ++ ((b'0' + n % 10) ∷ [])

-- `std::to_string`, and `{}` of `std::format`, on an integer
unfoldable pub decimal : ℤ → Text
unfolding digits
decimal (pos n) = digits (suc n) n
decimal (negsuc n) = b'-' ∷ digits (suc (suc n)) (suc n)

abbrev pub null_marker : Text
null_marker = bytes "__NULL__"

abbrev pub list_version_namespace : Text
list_version_namespace = bytes "img:list"

-- Seconds.
abbrev pub ttl_meta_terminal : ℕ
ttl_meta_terminal = 300

abbrev pub ttl_meta_inflight : ℕ
ttl_meta_inflight = 5

abbrev pub ttl_null_marker : ℕ
ttl_null_marker = 30

abbrev pub ttl_list_base : ℕ
ttl_list_base = 60

unfoldable pub meta_key : ℤ → ℤ → Text
meta_key user_id id = bytes "img:meta:" ++ (decimal user_id ++ (bytes ":" ++ decimal id))

unfoldable pub list_my_key : ℤ → ℤ → ℤ → ℤ → Text
list_my_key user_id version page size =
    bytes "img:list:my:"
    ++ (decimal user_id
        ++ (bytes ":v"
            ++ (decimal version ++ (bytes ":p" ++ (decimal page ++ (bytes ":s" ++ decimal size))))))

unfoldable pub list_my_status_key : ℤ → ℤ → TaskStatus → ℤ → ℤ → Text
list_my_status_key user_id version status page size =
    bytes "img:list:status:"
    ++ (decimal user_id
        ++ (bytes ":"
            ++ (status_to_string status
                ++ (bytes ":v"
                    ++ (decimal version
                        ++ (bytes ":p" ++ (decimal page ++ (bytes ":s" ++ decimal size))))))))

abbrev pub normalized_page : ℤ → ℤ
normalized_page p = if ltb_ℤ p (pos 0) then pos 0 else p

abbrev pub normalized_size : ℤ → ℤ
normalized_size s = if leb_ℤ s (pos 0) then pos 10 else s

unfoldable pub presign_key : Text → Text
presign_key storage_key = bytes "img:url:" ++ storage_key
