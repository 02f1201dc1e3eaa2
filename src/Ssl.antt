-- ===== src/Ssl.antt =====
-- lib/modules/openssl_privatekey.py, lib/modules/openssl_csr.py and lib/python/crypto.py, under
-- Python 2, whose `hashlib.algorithms` the code reads.
pub mod Files
pub mod Fingerprint
pub mod PrivateKey
pub mod Csr
