-- ===== src/Read/Tests.antt =====
-- sdb-read on the small image of the tests of libsdbfs.
use fpga_config_space.Base.{[], ◌∷◌, ◌++◌, some, false, ◌≡◌, refl, copies}
use fpga_config_space.Endian.{little}
use fpga_config_space.Read.{unknown, list_device, do_read}

-- A record of type 0x7f is an error, and one of type 0xf0 is not.
unknown_type :
    (list_device little false 0 0 (copies 63 0 ++ (0x7f ∷ [])) ≡ (1, unknown [] ∷ []))
    × (list_device little false 0 0 (copies 63 0 ++ (0xf0 ∷ [])) ≡ (0, unknown [] ∷ []))
unfolding list_device
unknown_type = (refl, refl)

mapped_read :
    do_read (some (λ j. j)) (record { fseek = λ p. false; fread = λ p n. [] }) 0 4 3
    ≡ some (4 ∷ 5 ∷ 6 ∷ [])
unfolding do_read
mapped_read = refl
