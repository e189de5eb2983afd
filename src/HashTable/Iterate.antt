-- ===== src/HashTable/Iterate.antt =====
-- An entry of supp_src/lib_hash.c that is deleted while iterators are on it.
