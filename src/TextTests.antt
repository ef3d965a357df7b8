-- ===== src/TextTests.antt =====
-- Runs of the text functions.
use clusterone.Prelude.{
  ◌≡◌, refl, true, some, lower, strip, ends_with, has_text, partition, print_nat, parse_nat,
}

lower_test : lower "First_NVMe" ≡ "first_nvme"
unfolding lower
lower_test = refl

strip_test : strip "  dell \n" ≡ "dell"
unfolding strip
strip_test = refl

print_nat_test : print_nat 1920 ≡ "1920"
unfolding print_nat
print_nat_test = refl

parse_nat_test : parse_nat "0443" ≡ some 443
unfolding parse_nat
parse_nat_test = refl

partition_test : partition "://" "https://a:1" ≡ some ("https", "a:1")
unfolding partition
partition_test = refl

has_text_test : has_text "error 404 there" "404" ≡ true
unfolding has_text
has_text_test = refl

ends_with_test : ends_with "bay 12" "12" ≡ true
unfolding ends_with
ends_with_test = refl

spaced_nat_test : parse_nat " +4_3\n" ≡ some 43
unfolding parse_nat
spaced_nat_test = refl
